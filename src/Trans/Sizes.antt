-- ===== src/Trans/Sizes.antt =====
-- Catalogues that are too short for trans/read_mo.cpp.
use ministudo_guibuilder.Prelude.{
  ℕ, ◌+◌, ◌*◌, ◌^◌, ◌<◌, ◌≡◌, refl, ap, none, some, get_elem?, get_elem?-lt, length, arith,
  Option-cases, inl, inr,
}
use ministudo_guibuilder.Prelude.Access.{Access, ok, fault, ◌>>=◌, of_option}
use ministudo_guibuilder.Trans.Gettext.{Bytes}
use ministudo_guibuilder.Trans.ReadMo.{byte_at, get_uint32, read_header, read_mo_file, MoFile}

stops {ℓ κ} :
    {A : Type ℓ} {B : Type κ} (m : Access A) (f : A → Access B)
    → ((a : A) → f a ≡ fault)
    → (m >>= f) ≡ fault
stops (ok a) f h = h a
stops fault f h = refl

-- A number that does not lie in the file is read behind its end.
get_uint32_short :
    (bytes : Bytes) (offset : ℕ) → length bytes < offset + 4 → get_uint32 bytes offset ≡ fault
unfolding get_uint32
get_uint32_short bytes offset h = stops (byte_at bytes offset) _ (λ b0.
    stops (byte_at bytes (offset + 1)) _ (λ b1. stops (byte_at bytes (offset + 2)) _ (λ b2.
      ap (λ o. of_option o >>= λ b3. ok (b0 + b1 * 2 ^ 8 + b2 * 2 ^ 16 + b3 * 2 ^ 24)) outside)))
  where
    outside : get_elem? bytes (offset + 3) ≡ none
    outside = elim (Option-cases (get_elem? bytes (offset + 3))) [
      | inl behind ↦ behind
      | inr (b, there) ↦ absurd (let lt = get_elem?-lt bytes (offset + 3) there in omega arith)
    ]

-- A catalogue of fewer than 28 bytes is read behind its end: the test for that only prints a message.
pub read_mo_file_short :
    (old : MoFile) (bytes : Bytes) → length bytes < 28 → read_mo_file old (some bytes) ≡ fault
unfolding read_mo_file read_header
read_mo_file_short old bytes h = rw short refl
  where
    short : read_header bytes ≡ fault
    short = stops (get_uint32 bytes 8) _ (λ n. stops (get_uint32 bytes 12) _ (λ orig.
        stops (get_uint32 bytes 16) _ (λ trans. stops (get_uint32 bytes 20) _ (λ size.
          ap
            (λ a. a >>= λ hash. ok (record {
              nstrings = n;
              orig_tab_offset = orig;
              trans_tab_offset = trans;
              hash_tab_size = size;
              hash_tab_offset = hash;
            }))
            (get_uint32_short bytes 24 h)))))
