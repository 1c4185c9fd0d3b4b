-- ===== src/Resource/Search/Identifiers.antt =====
-- `binary_search_iditem` of tools/res2c/resource.c on a map that is sorted by identifiers.
use ministudo_guibuilder.Prelude.{
  ℕ, zero, suc, ◌+◌, ◌/◌, ◌≤◌, ◌<◌, ◌≡◌, ◌≢◌, inl, inr, Option, none, some, arith, ltb, ◌==◌,
  Bool-cases, ltb→lt,
}
use ministudo_guibuilder.Prelude.Access.{Access, ok}
use ministudo_guibuilder.Resource.Memory.{Pointer, uint32_at}
use ministudo_guibuilder.Resource.Search.{
  size_maps_at, iditem_at, search_loop, check_found, search_index, to_item, binary_search_iditem,
}

-- The first index below `n` whose identifier is the key, or none if there is no such index.
abbrev pub IsFirst : (ℕ → ℕ) → ℕ → ℕ → Option ℕ → Type 0
IsFirst ids n key none = (i : ℕ) → i < n → ids i ≢ key
IsFirst ids n key (some k) = (k < n) × (ids k ≡ key) × ((i : ℕ) → i < k → ids i < key)

module _ (id_at : ℕ → Access ℕ) (ids : ℕ → ℕ) (n key : ℕ)
    (readable : (i : ℕ) → i < n → id_at i ≡ ok (ids i))
    (sorted : (i j : ℕ) → i ≤ j → j < n → ids i ≤ ids j) where
  -- The place of the key: all before it are smaller, none from it on is.
  abbrev Splits : ℕ → Type 0
  Splits m = (m ≤ n) × ((i : ℕ) → i < m → ids i < key) × ((i : ℕ) → m ≤ i → i < n → key ≤ ids i)

  search_loop-Splits :
      (fuel low high : ℕ)
      → low ≤ high
      → high ≤ n
      → high < low + fuel
      → ((i : ℕ) → i < low → ids i < key)
      → ((i : ℕ) → high ≤ i → i < n → key ≤ ids i)
      → (m : ℕ) × (search_loop id_at key fuel low high ≡ ok m) × Splits m
  unfolding search_loop
  search_loop-Splits zero low high le hn room small large = absurd (omega arith)
  search_loop-Splits (suc fuel) low high le hn room small large =
      let mid : ℕ = (low + high) / 2 in
      elim (Bool-cases (ltb low high)) [
        | inr done ↦
            let same : low ≡ high = ground arith in
            (low, rw done, (omega arith, small, λ i a b. large i (omega arith) b))
        | inl more ↦
            let lt = ltb→lt low high more in
            let before : mid < high = omega arith in
            let from : low ≤ mid = omega arith in
            let got = readable mid (omega arith) in
            elim (Bool-cases (ltb (ids mid) key)) [
              | inl up ↦
                  let below = ltb→lt (ids mid) key up in
                  let (m, e, s) =
                    search_loop-Splits fuel (mid + 1) high (omega arith) hn (omega arith)
                      (λ i h. let most = sorted i mid (omega arith) (omega arith) in omega arith)
                      large in
                  (m, rw (more, got, up) e, s)
              | inr down ↦
                  let above : key ≤ ids mid = ground arith in
                  let (m, e, s) =
                    search_loop-Splits fuel low mid from (omega arith) (omega arith) small
                      (λ i h k. let least = sorted mid i h k in omega arith) in
                  (m, rw (more, got, down) e, s)
            ]
      ]

  check_found-IsFirst :
      (m : ℕ) → Splits m → (r : Option ℕ) × (check_found id_at key n m ≡ ok r) × IsFirst ids n key r
  unfolding check_found
  check_found-IsFirst m (le, small, large) = elim (Bool-cases (ltb m n)) [
    | inr past ↦
        let all : n ≤ m = ground arith in
        (none, rw past, λ i h e. let less = small i (omega arith) in omega arith)
    | inl there ↦
        let lt = ltb→lt m n there in
        let got = readable m lt in
        elim (Bool-cases (ids m == key)) [
          | inl same ↦ (some m, rw (there, got, same), (lt, ground arith, small))
          | inr other ↦
              let differ : ids m ≢ key = ground arith in
              let above = large m (omega arith) lt in
              (none, rw (there, got, other), missing differ above)
        ]
  ]
    where
      missing : ids m ≢ key → key ≤ ids m → (i : ℕ) → i < n → ids i ≢ key
      missing differ above i h e = elim (Bool-cases (ltb i m)) [
        | inl left ↦ let less = small i (ltb→lt i m left) in omega arith
        | inr right ↦
            let from : m ≤ i = ground arith in let least = sorted m i from h in differ (omega arith)
      ]

  search_index-IsFirst : (r : Option ℕ) × (search_index id_at n key ≡ ok r) × IsFirst ids n key r
  unfolding search_index
  search_index-IsFirst =
      let (m, e, s) =
        search_loop-Splits (suc n) 0 n (omega arith) (omega arith) (omega arith)
          (λ i h. absurd (omega arith)) (λ i h k. absurd (omega arith)) in
      let (r, f, first) = check_found-IsFirst m s in (r, rw e f, first)

-- On a section whose map holds `n` items that can be read and are sorted by their identifiers,
-- `binary_search_iditem` comes to an end and returns the first item with the identifier, or NULL
-- if there is none.
pub binary_search_iditem-IsFirst :
    (base : Pointer) (ids : ℕ → ℕ) (n res_id : ℕ)
    → uint32_at base size_maps_at ≡ ok n
    → ((i : ℕ) → i < n → uint32_at (iditem_at base i) 0 ≡ ok (ids i))
    → ((i j : ℕ) → i ≤ j → j < n → ids i ≤ ids j)
    → (r : Option ℕ) × (binary_search_iditem (some base) res_id ≡ ok (to_item base r))
      × IsFirst ids n res_id r
unfolding binary_search_iditem
binary_search_iditem-IsFirst base ids n res_id size readable sorted =
    let (r, e, first) =
      search_index-IsFirst (λ i. uint32_at (iditem_at base i) 0) ids n res_id readable sorted in
    (r, rw (size, e), first)
