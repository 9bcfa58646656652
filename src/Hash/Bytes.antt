-- ===== src/Hash/Bytes.antt =====
-- xor_hash of src/hash/xor_hash.cpp: what its unrolled loop computes, and a hash that is made in parts.
use mathlib.Core.List.{append-nil, append_assoc}
use gko_pool.Prelude.{
  ℕ, zero, suc, ◌+◌, ◌-◌, ◌*◌, ◌%◌, ◌/◌, ◌≤◌, ◌<◌, ◌≡◌, ◌≢◌, refl, sym, ap, ◌∙◌, arith, true, false,
  List, [], ◌∷◌, ◌++◌, leb, get_or, length, length-append,
}
use Prim.Native.Nat.{bit_xor}
use gko_pool.Hash.{roll, mix, hash_eights, hash_ones, start_hash, xor_hash}

hash_ones_at :
    (a b i j : ℕ) (p : List ℕ) (h : ℕ) → a ≡ b → i ≡ j → hash_ones a i p h ≡ hash_ones b j p h
hash_ones_at a b i j p h e f = ap (λ n. hash_ones n i p h) e ∙ ap (λ n. hash_ones b n p h) f

hash_ones-add :
    (a b i : ℕ) (p : List ℕ) (h : ℕ)
    → hash_ones (a + b) i p h ≡ hash_ones b (i + a) p (hash_ones a i p h)
unfolding hash_ones
hash_ones-add zero b i p h = hash_ones_at (0 + b) b i (i + 0) p h (omega arith) (omega arith)
hash_ones-add (suc a) b i p h =
    hash_ones_at (suc a + b) (suc (a + b)) i i p h (omega arith) refl
    ∙ hash_ones-add a b (i + 1) p (mix h p i)
    ∙ hash_ones_at b b (i + 1 + a) (i + suc a) p (hash_ones a (i + 1) p (mix h p i)) refl
        (omega arith)

-- The eight bytes of one round.
abbrev mix_eight : ℕ → List ℕ → ℕ → ℕ
mix_eight h p i =
    mix
      (mix
        (mix (mix (mix (mix (mix (mix h p i) p (i + 1)) p (i + 2)) p (i + 3)) p (i + 4)) p (i + 5))
        p (i + 6))
      p (i + 7)

hash_ones_eight : (i : ℕ) (p : List ℕ) (h : ℕ) → hash_ones 8 i p h ≡ mix_eight h p i
unfolding hash_ones
hash_ones_eight i p h = rw (at 1, at 2, at 3, at 4, at 5, at 6) refl
  where
    at : (k : ℕ) → i + k + 1 ≡ i + (k + 1)
    at k = omega arith

-- The loop of eight bytes a round takes the same bytes in the same order, as many as whole rounds give.
hash_eights-hash_ones :
    (fuel k r i len : ℕ) (p : List ℕ) (h : ℕ)
    → len ≡ i + 8 * k + r
    → r < 8
    → k ≤ fuel
    → hash_eights fuel i len p h ≡ hash_ones (8 * k) i p h
unfolding hash_eights hash_ones
hash_eights-hash_ones zero k r i len p h e l f = hash_ones_at 0 (8 * k) i i p h (omega arith) refl
hash_eights-hash_ones (suc fuel) zero r i len p h e l f = rw (short) refl
  where
    short : leb (i + 8) len ≡ false
    short = ground arith
hash_eights-hash_ones (suc fuel) (suc k) r i len p h e l f = rw (long) (
    hash_eights-hash_ones fuel k r (i + 8) len p (mix_eight h p i) (omega arith) l (omega arith)
    ∙ ap (hash_ones (8 * k) (i + 8) p) (sym (hash_ones_eight i p h))
    ∙ sym (hash_ones-add 8 (8 * k) i p h)
    ∙ hash_ones_at (8 + 8 * k) (8 * suc k) i i p h (omega arith) refl)
  where
    long : leb (i + 8) len ≡ true
    long = ground arith

xor_hash-hash_ones :
    (key : List ℕ) (len hval : ℕ) → xor_hash key len hval ≡ hash_ones len 0 key (start_hash hval)
unfolding xor_hash
xor_hash-hash_ones key len hval =
    ap (hash_ones (len % 8) (len - len % 8) key) (
      hash_eights-hash_ones len (len / 8) (len % 8) 0 len key (start_hash hval) (omega arith)
        (omega arith) (omega arith))
    ∙ hash_ones_at (len % 8) (len % 8) (len - len % 8) (0 + 8 * (len / 8)) key
        (hash_ones (8 * (len / 8)) 0 key (start_hash hval)) refl (omega arith)
    ∙ sym (hash_ones-add (8 * (len / 8)) (len % 8) 0 key (start_hash hval))
    ∙ hash_ones_at (8 * (len / 8) + len % 8) len 0 0 key (start_hash hval) (omega arith) refl

-- The hash as it is meant: one byte after the other.
unfoldable pub fold_hash : ℕ → List ℕ → ℕ
fold_hash hval [] = hval
fold_hash hval (x ∷ p) = fold_hash (bit_xor (roll hval) x) p

get_or-append : (p : List ℕ) (x : ℕ) (q : List ℕ) → get_or (p ++ x ∷ q) (length p) 0 ≡ x
get_or-append [] x q = refl
get_or-append (y ∷ p) x q = get_or-append p x q

hash_ones-fold_hash :
    (before p after : List ℕ) (h : ℕ)
    → hash_ones (length p) (length before) (before ++ (p ++ after)) h ≡ fold_hash h p
unfolding hash_ones fold_hash mix
hash_ones-fold_hash before [] after h = refl
hash_ones-fold_hash before (x ∷ p) after h =
    ap
      (λ b.
        hash_ones (length p) (length before + 1) (before ++ (x ∷ (p ++ after)))
          (bit_xor (roll h) b))
      (get_or-append before x (p ++ after))
    ∙ ap (λ l. hash_ones (length p) (length before + 1) l (bit_xor (roll h) x))
        (sym (append_assoc before (x ∷ []) (p ++ after)))
    ∙ hash_ones_at (length p) (length p) (length before + 1) (length (before ++ x ∷ []))
        ((before ++ x ∷ []) ++ (p ++ after)) (bit_xor (roll h) x) refl
        (omega (arith, length-append before (x ∷ [])))
    ∙ hash_ones-fold_hash (before ++ x ∷ []) p after (bit_xor (roll h) x)

-- For every buffer and every start, xor_hash with its loop of eight bytes a round is the hash of the
-- bytes one after the other, each once and in their order, whatever the length leaves over.
pub xor_hash-fold_hash :
    (p after : List ℕ) (hval : ℕ)
    → xor_hash (p ++ after) (length p) hval ≡ fold_hash (start_hash hval) p
xor_hash-fold_hash p after hval =
    xor_hash-hash_ones (p ++ after) (length p) hval
    ∙ hash_ones-fold_hash [] p after (start_hash hval)

pub fold_hash-append : (p q : List ℕ) (h : ℕ) → fold_hash h (p ++ q) ≡ fold_hash (fold_hash h p) q
unfolding fold_hash
fold_hash-append [] q h = refl
fold_hash-append (x ∷ p) q h = fold_hash-append p q (bit_xor (roll h) x)

pub xor_hash_whole :
    (p : List ℕ) (hval : ℕ) → xor_hash p (length p) hval ≡ fold_hash (start_hash hval) p
xor_hash_whole p hval =
    ap (λ l. xor_hash l (length p) hval) (sym (append-nil p)) ∙ xor_hash-fold_hash p [] hval

pub start_hash_same : (h : ℕ) → h ≢ 0 → start_hash h ≡ h
start_hash_same zero ne = absurd (ne refl)
start_hash_same (suc h) ne = ground arith

-- A hash that is made in two parts, the second from the result of the first, is the hash of the whole,
-- provided that the first result is not 0: that value would start the hash anew.
pub xor_hash_parts :
    (p q : List ℕ) (hval : ℕ)
    → xor_hash p (length p) hval ≢ 0
    → xor_hash q (length q) (xor_hash p (length p) hval) ≡ xor_hash (p ++ q) (length (p ++ q)) hval
xor_hash_parts p q hval ne =
    let first = xor_hash p (length p) hval in
    xor_hash_whole q first
    ∙ ap (λ h. fold_hash h q) (start_hash_same first ne ∙ xor_hash_whole p hval)
    ∙ sym (fold_hash-append p q (start_hash hval))
    ∙ sym (xor_hash_whole (p ++ q) hval)
