-- ===== src/Job/Patch.antt =====
-- Bytes written over a part of a list that is made of two.
use mathlib.Core.List.{append-nil, append_assoc}
use gko_pool.Prelude.{
  ℕ, zero, suc, ◌+◌, ◌≤◌, ◌≡◌, refl, sym, ap, ◌∙◌, arith, List, [], ◌∷◌, ◌++◌, length,
  length-append, length-take, length-drop, take, drop,
}
use gko_pool.Job.{patch}

pub take-append_le : (n : ℕ) (a b : List ℕ) → n ≤ length a → take n (a ++ b) ≡ take n a
take-append_le zero a b l = refl
take-append_le (suc n) [] b l = absurd (omega arith)
take-append_le (suc n) (x ∷ a) b l = ap (◌∷◌ x) (take-append_le n a b (omega arith))

pub drop-append_le : (n : ℕ) (a b : List ℕ) → n ≤ length a → drop n (a ++ b) ≡ drop n a ++ b
drop-append_le zero a b l = refl
drop-append_le (suc n) [] b l = absurd (omega arith)
drop-append_le (suc n) (x ∷ a) b l = drop-append_le n a b (omega arith)

pub take-append_ge : (k n : ℕ) (a b : List ℕ) → k ≡ length a + n → take k (a ++ b) ≡ a ++ take n b
take-append_ge k n [] b e = ap (λ m. take m b) (omega arith)
take-append_ge zero n (x ∷ a) b e = absurd (omega arith)
take-append_ge (suc k) n (x ∷ a) b e = ap (◌∷◌ x) (take-append_ge k n a b (omega arith))

pub drop-append_ge : (k n : ℕ) (a b : List ℕ) → k ≡ length a + n → drop k (a ++ b) ≡ drop n b
drop-append_ge k n [] b e = ap (λ m. drop m b) (omega arith)
drop-append_ge zero n (x ∷ a) b e = absurd (omega arith)
drop-append_ge (suc k) n (x ∷ a) b e = drop-append_ge k n a b (omega arith)

pub drop_all : (n : ℕ) (a : List ℕ) → length a ≤ n → drop n a ≡ []
drop_all zero [] l = refl
drop_all zero (x ∷ a) l = absurd (omega arith)
drop_all (suc n) [] l = refl
drop_all (suc n) (x ∷ a) l = drop_all n a (omega arith)

pub length-patch :
    (l : List ℕ) (offset : ℕ) (w : List ℕ)
    → offset + length w ≤ length l
    → length (patch l offset w) ≡ length l
length-patch l offset w h = omega (
  arith,
  length-append (take offset l) (w ++ drop (offset + length w) l),
  length-append w (drop (offset + length w) l),
  length-take offset l,
  length-drop (offset + length w) l,
  h,
)

-- A write inside the first part.
pub patch-append_left :
    (a b : List ℕ) (offset : ℕ) (w : List ℕ)
    → offset + length w ≤ length a
    → patch (a ++ b) offset w ≡ patch a offset w ++ b
patch-append_left a b offset w h =
    ap (λ t. t ++ (w ++ drop (offset + length w) (a ++ b)))
      (take-append_le offset a b (omega (arith, h)))
    ∙ ap (λ t. take offset a ++ (w ++ t)) (drop-append_le (offset + length w) a b h)
    ∙ ap (λ t. take offset a ++ t) (sym (append_assoc w (drop (offset + length w) a) b))
    ∙ sym (append_assoc (take offset a) (w ++ drop (offset + length w) a) b)

-- A write inside the second part.
pub patch-append_right :
    (a b : List ℕ) (offset : ℕ) (w : List ℕ)
    → patch (a ++ b) (length a + offset) w ≡ a ++ patch b offset w
patch-append_right a b offset w =
    ap (λ t. t ++ (w ++ drop (length a + offset + length w) (a ++ b)))
      (take-append_ge (length a + offset) offset a b refl)
    ∙ ap (λ t. (a ++ take offset b) ++ (w ++ t))
        (drop-append_ge (length a + offset + length w) (offset + length w) a b (omega arith))
    ∙ append_assoc a (take offset b) (w ++ drop (offset + length w) b)

-- A write that fills the first part and goes on in the second.
pub patch-append_across :
    (a b : List ℕ) (offset : ℕ) (v w : List ℕ)
    → offset + length v ≡ length a
    → patch (a ++ b) offset (v ++ w) ≡ patch a offset v ++ patch b 0 w
patch-append_across a b offset v w h =
    ap (λ t. t ++ ((v ++ w) ++ drop (offset + length (v ++ w)) (a ++ b)))
      (take-append_le offset a b (omega (arith, h)))
    ∙ ap (λ t. take offset a ++ ((v ++ w) ++ t))
        (drop-append_ge (offset + length (v ++ w)) (length w) a b
          (omega (arith, length-append v w, h)))
    ∙ ap (λ t. take offset a ++ t) (append_assoc v w (drop (length w) b))
    ∙ sym (append_assoc (take offset a) v (w ++ drop (length w) b))
    ∙ ap (λ t. (take offset a ++ t) ++ (w ++ drop (length w) b)) (sym (append-nil v))
    ∙ ap (λ t. (take offset a ++ (v ++ t)) ++ (w ++ drop (length w) b))
        (sym (drop_all (offset + length v) a (omega (arith, h))))
    ∙ ap (λ n. patch a offset v ++ (w ++ drop n b)) (omega arith)
