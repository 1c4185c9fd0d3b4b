-- ===== src/Resource/Search/Types.antt =====
-- `search_type_item` of tools/res2c/resource.c: its loop counter is never advanced.
use ministudo_guibuilder.Prelude.{
  ℕ, zero, suc, ◌+◌, ◌≤◌, ◌<◌, ◌≡◌, ◌≢◌, sym, inl, inr, true, false, Option, none, some, arith,
  length, ltb, if◌then◌else◌, Bool-cases, lt→ltb,
}
use ministudo_guibuilder.Prelude.Access.{Access, ok, fault, ◌>>=◌}
use ministudo_guibuilder.Resource.Memory.{Pointer, uint32_at, uint32_at-lt}
use ministudo_guibuilder.Resource.Search.{
  nr_sect_at, typeitem_at, shares_bit, search_items, search_type_item,
}

module _ (header : Pointer) (kind k : ℕ) (types : ℕ → ℕ)
    (readable : (i : ℕ) → i ≤ k → uint32_at (typeitem_at header i) 0 ≡ ok (types i)) where
  search_items-first :
      (fuel i : ℕ)
      → i ≤ k
      → k < i + fuel
      → ((j : ℕ) → i ≤ j → j < k → shares_bit 16 kind (types j) ≡ false)
      → shares_bit 16 kind (types k) ≡ true
      → search_items fuel header kind i ≡ ok (some (typeitem_at header k))
  unfolding search_items
  search_items-first zero i le room others it = absurd (omega arith)
  search_items-first (suc fuel) i le room others it = elim (Bool-cases (ltb i k)) [
    | inl before ↦
        let lt : i < k = ground arith in
        rw (readable i le, others i (omega arith) lt)
          (search_items-first fuel (i + 1) (omega arith) (omega arith)
            (λ j h. others j (omega arith)) it)
    | inr here ↦ let same : k ≡ i = ground arith in rw (sym same, readable k (omega arith), it)
  ]

  -- With one section or more, `search_type_item` returns the first item whose type shares a bit
  -- with the one asked for, if that item and those before it can be read; it does so whether the
  -- item is one of the `nr_sect` items of the package or lies behind them.
  pub search_type_item-first :
      (nr_sect : ℕ)
      → uint32_at header nr_sect_at ≡ ok nr_sect
      → 0 < nr_sect
      → ((j : ℕ) → j < k → shares_bit 16 kind (types j) ≡ false)
      → shares_bit 16 kind (types k) ≡ true
      → search_type_item header kind ≡ ok (some (typeitem_at header k))
  unfolding search_type_item
  search_type_item-first nr_sect size some_section others it =
      let within = uint32_at-lt (typeitem_at header k) 0 (readable k (omega arith)) in
      rw (size, lt→ltb 0 nr_sect some_section)
        (search_items-first (length header.bytes) 0 (omega arith) (omega arith) (λ j h. others j)
          it)

test-some :
    (a : Access ℕ) (kind : ℕ) (p : Pointer) (later : Access (Option Pointer))
    → (later ≢ ok none)
    → (a >>= λ item_type. if shares_bit 16 kind item_type then ok (some p) else later) ≢ ok none
test-some fault kind p later h g = cc g
test-some (ok t) kind p later h g = elim (Bool-cases (shares_bit 16 kind t)) [
  | inl hit ↦ cc (rw hit at g)
  | inr miss ↦ h (rw miss at g)
]

search_items-some : (header : Pointer) (kind fuel i : ℕ) → search_items fuel header kind i ≢ ok none
unfolding search_items
search_items-some header kind zero i h = cc h
search_items-some header kind (suc fuel) i h =
    test-some (uint32_at (typeitem_at header i) 0) kind (typeitem_at header i) _
      (search_items-some header kind fuel (i + 1)) h

-- A package with sections is never found to lack one: `search_type_item` does not return NULL.
pub search_type_item_missing :
    (header : Pointer) (kind nr_sect : ℕ)
    → uint32_at header nr_sect_at ≡ ok nr_sect
    → 0 < nr_sect
    → search_type_item header kind ≢ ok none
unfolding search_type_item
search_type_item_missing header kind nr_sect size some_section h =
    search_items-some header kind (length header.bytes) 0
      (rw (size, lt→ltb 0 nr_sect some_section) at h)
