-- ===== src/Session/Shape.antt =====
-- The text of a token.
use abrt.Base.{
  ℕ, suc, ◌*◌, ◌/◌, ◌<◌, ◌≡◌, refl, ap, true, false, not, List, [], ◌∷◌, ◌++◌, map, ◌==◌, arith,
  get_or, length, All, passes_upto, passes_upto-test,
}
use abrt.Session.Token.{c_string, token_byte, alphabet, rand_max}

abbrev pub IsDraw : ℕ → Type 0
IsDraw r = r < rand_max

alphabet_table : passes_upto (λ i. not (get_or alphabet i 0 == 0)) 64 ≡ true
unfolding passes_upto
alphabet_table = refl

token_byte-ne-zero : (r : ℕ) → IsDraw r → (token_byte r == 0) ≡ false
unfolding token_byte
token_byte-ne-zero r h =
    let passed =
      passes_upto-test (λ i. not (get_or alphabet i 0 == 0)) 64 (64 * r / rand_max) (omega arith)
        alphabet_table in
    ground (arith, passed)

token_byte-rand_max : token_byte rand_max ≡ 0
unfolding token_byte
token_byte-rand_max = refl

-- The sixteen draws make a token of sixteen letters, if none is RAND_MAX, the largest value that
-- `rand_r` may return.
length-c_string : (rs : List ℕ) → All IsDraw rs → length (c_string (map token_byte rs)) ≡ length rs
unfolding c_string
length-c_string [] a = refl
length-c_string (r ∷ rs) a = rw (token_byte-ne-zero r a.0) (ap suc (length-c_string rs a.1))

-- At a draw of RAND_MAX the index is 64, one past the last letter: the token ends there, and what was
-- drawn behind it is lost.
c_string_cut :
    (rs more : List ℕ)
    → All IsDraw rs
    → c_string (map token_byte (rs ++ rand_max ∷ more)) ≡ c_string (map token_byte rs)
unfolding c_string
c_string_cut [] more a = rw token_byte-rand_max
c_string_cut (r ∷ rs) more a =
    rw (token_byte-ne-zero r a.0) (ap (◌∷◌ (token_byte r)) (c_string_cut rs more a.1))
