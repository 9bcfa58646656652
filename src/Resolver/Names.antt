-- ===== src/Resolver/Names.antt =====
-- The dictionary of names in src/async_dns.cpp: equal keys have equal hashes.
use gko_pool.Prelude.{
  ℕ, suc, ◌+◌, ◌*◌, ◌%◌, ◌^◌, ◌≡◌, refl, sym, ap, ◌∙◌, inl, inr, arith, true, List, [], ◌∷◌, ◌==◌,
  ==_iff, Bool-cases, if◌then◌else◌, map,
}
use gko_pool.Prelude.Int.{ℤ, pos, negsuc, pos_part, neg_part}
use gko_pool.Resolver.{hash_from, dict_gen_str_case_hash_function, dict_str_case_key_compare}

-- The bytes of a string, up to its NUL.
abbrev pub c_string : List ℕ → List ℕ
c_string [] = []
c_string (b ∷ buf) = let rest = c_string buf in if b == 0 then [] else b ∷ rest

-- The hash of bytes that are folded already.
folded_hash : ℕ → List ℕ → ℕ
folded_hash hash [] = hash
folded_hash hash (b ∷ bytes) = folded_hash ((hash * 2 ^ 5 % 2 ^ 32 + hash + b) % 2 ^ 32) bytes

hash_from-folded :
    (tolower : ℕ → ℕ) (hash : ℕ) (buf : List ℕ)
    → hash_from tolower hash buf ≡ folded_hash hash (map tolower (c_string buf))
unfolding hash_from folded_hash
hash_from-folded tolower hash [] = refl
hash_from-folded tolower hash (b ∷ buf) = elim (Bool-cases (b == 0)) [
  | inl e ↦ rw e refl
  | inr e ↦
      rw e (hash_from-folded tolower ((hash * 2 ^ 5 % 2 ^ 32 + hash + tolower b) % 2 ^ 32) buf)
]

-- Names that the dictionary takes for the same key have the same hash, where strcasecmp answers 0 only
-- for strings that tolower makes equal.
pub dict_str_case_key_compare-hash :
    (tolower : ℕ → ℕ) (strcasecmp : List ℕ → List ℕ → ℤ) (key1 key2 : List ℕ)
    → ((a b : List ℕ)
        → strcasecmp a b ≡ pos 0
        → map tolower (c_string a) ≡ map tolower (c_string b))
    → dict_str_case_key_compare strcasecmp key1 key2 ≡ true
    → dict_gen_str_case_hash_function tolower key1 ≡ dict_gen_str_case_hash_function tolower key2
unfolding dict_str_case_key_compare dict_gen_str_case_hash_function
dict_str_case_key_compare-hash tolower strcasecmp key1 key2 folds same =
    hash_from-folded tolower 5381 key1
    ∙ ap (folded_hash 5381) (folds key1 key2 (zero_of (strcasecmp key1 key2) same))
    ∙ sym (hash_from-folded tolower 5381 key2)
  where
    zero_of : (n : ℤ) → (pos_part n + neg_part n == 0) ≡ true → n ≡ pos 0
    zero_of (pos n) e = ap pos (omega (arith, (==_iff (n + 0) 0).0 e))
    zero_of (negsuc n) e = absurd (omega (arith, (==_iff (0 + suc n) 0).0 e))
