-- ===== src/CodeCombin/Gathered.antt =====
-- The text and the buffer of `TextElement::loadFromFile` in common/codecombin.cpp.
use ministudo_guibuilder.Prelude.{
  ℕ, ◌≡◌, refl, sym, ap, ◌∙◌, Bool, false, Option, none, some, [], ◌∷◌, ◌++◌, leb, ◌==◌, length,
  arith, Bool-cases, inl, inr, All, All-append,
}
use mathlib.Core.List.{append_assoc, append-nil}
use ministudo_guibuilder.CodeCombin.Element.{Text, insert_text, append_text}
use ministudo_guibuilder.CodeCombin.Save.{take-length, drop-length}
use ministudo_guibuilder.CodeCombin.Load.{Loading, c_string, flush_full, flush_rest}

abbrev pub IsByte : ℕ → Type 0
IsByte c = (c == 0) ≡ false

c_string-bytes : (cs : Text) → All IsByte cs → c_string cs ≡ cs
c_string-bytes [] h = refl
c_string-bytes (c ∷ cs) h = rw h.0 (ap (λ u. c ∷ u) (c_string-bytes cs h.1))

append_text-some : (cs w : Text) → append_text (some cs) w ≡ some (cs ++ w)
unfolding append_text insert_text
append_text-some cs [] = ap some (sym (append-nil cs))
append_text-some cs (c ∷ w) =
    rw (take-length cs, drop-length cs) (ap (λ u. some (cs ++ c ∷ u)) (append-nil w))

pub append_text-nil : (t : Option Text) → append_text t [] ≡ t
unfolding append_text insert_text
append_text-nil t = refl

pub append_text-cons : (c : ℕ) (w : Text) → append_text none (c ∷ w) ≡ some (c ∷ w)
unfolding append_text insert_text
append_text-cons c w = refl

append_text-append :
    (t : Option Text) (v w : Text) → append_text t (v ++ w) ≡ append_text (append_text t v) w
append_text-append (some cs) v w =
    append_text-some cs (v ++ w)
    ∙ ap some (sym (append_assoc cs v w))
    ∙ sym (append_text-some (cs ++ v) w)
    ∙ ap (λ t. append_text t w) (sym (append_text-some cs v))
append_text-append none [] w = ap (λ t. append_text t w) (sym (append_text-nil none))
append_text-append none (c ∷ v) w =
    append_text-cons c (v ++ w)
    ∙ sym (append_text-some (c ∷ v) w)
    ∙ ap (λ t. append_text t w) (sym (append_text-cons c v))

-- The text and the buffer together hold what has been read.
pub record Gathered (l : Loading) (acc : Text) : Type 0 where
  pub bytes : All IsByte l.buffer
  pub so_far : append_text l.loaded l.buffer ≡ append_text none acc

Gathered-flush : (l : Loading) (acc : Text) → Gathered l acc → Gathered (flush_full l) acc
Gathered-flush l acc g = elim (Bool-cases (leb 4090 (length l.buffer))) [
  | inl full ↦ rw full (record {
    bytes = tt;
    so_far =
        append_text-nil _ ∙ ap (append_text l.loaded) (c_string-bytes l.buffer g.bytes) ∙ g.so_far;
  })
  | inr room ↦ rw room g
]

pub Gathered-read :
    (l : Loading) (acc w : Text) (newline : Bool)
    → Gathered l acc
    → All IsByte w
    → Gathered (flush_full (record l { newline = newline; buffer = l.buffer ++ w })) (acc ++ w)
Gathered-read l acc w newline g h =
    Gathered-flush (record l { newline = newline; buffer = l.buffer ++ w }) (acc ++ w)
      (record {
        bytes = All-append IsByte l.buffer w g.bytes h;
        so_far =
            append_text-append l.loaded l.buffer w
            ∙ ap (λ t. append_text t w) g.so_far
            ∙ sym (append_text-append none acc w);
      })

pub Gathered-rest :
    (l : Loading) (acc : Text) → Gathered l acc → flush_rest l ≡ append_text none acc
Gathered-rest l acc g = elim (Bool-cases (leb 1 (length l.buffer))) [
  | inl more ↦ rw more (ap (append_text l.loaded) (c_string-bytes l.buffer g.bytes) ∙ g.so_far)
  | inr over ↦ rw over (
      sym (append_text-nil l.loaded)
      ∙ ap (append_text l.loaded) (sym (empty l.buffer over))
      ∙ g.so_far)
]
  where
    empty : (w : Text) → leb 1 (length w) ≡ false → w ≡ []
    empty [] h = refl
    empty (c ∷ w) h = absurd (ground arith)
