-- ===== src/CoreHook/Pattern.antt =====
-- The expansion of the old core pattern: the loop that rewrites the text in place gives what one pass
-- over the pattern gives.
use abrt.Base.{
  ℕ, zero, suc, ◌≡◌, refl, ap, ◌∙◌, subst, List, [], ◌∷◌, ◌++◌, none, some, ◌==◌, if◌then◌else◌,
  Str, length, take, drop, get_elem?, ◌+◌, ◌<◌, arith, append_assoc, if_both, length-append,
}
use abrt.CoreHook.{
  Replacement, verbatim, replacement, null_value, value_of, Expansion, expanded, null_used,
  out_of_rounds, ends, goes_on, Step, replaced, expand_at, expand_loop,
}

abbrev pub prefixed : Str → Expansion → Expansion
prefixed done (expanded s) = expanded (done ++ s)
prefixed done null_used = null_used
prefixed done out_of_rounds = out_of_rounds

-- What a pattern expands to: a specifier to its value, which is not looked at again
pub joined : Replacement → ℕ → Expansion → Expansion → Expansion
joined verbatim c whole next = prefixed (c ∷ []) whole
joined (replacement val) c whole next = prefixed val next
joined null_value c whole next = null_used

pub expand : List Str → Str → Expansion
unfolding joined
expand values [] = expanded []
expand values (c ∷ []) = expanded (c ∷ [])
expand values (c ∷ d ∷ rest) =
    let whole = expand values (d ∷ rest) in
    let next = expand values rest in
    joined (if c == b'%' then value_of values (some d) else verbatim) c whole next

get_elem?-append : (s : Str) (c : ℕ) (rest : Str) → get_elem? (s ++ c ∷ rest) (length s) ≡ some c
get_elem?-append [] c rest = refl
get_elem?-append (x ∷ s) c rest = get_elem?-append s c rest

take-append : (s rest : Str) → take (length s) (s ++ rest) ≡ s
take-append [] rest = refl
take-append (x ∷ s) rest = ap (λ t. x ∷ t) (take-append s rest)

later_suc : (m n : ℕ) → suc (m + n) ≡ suc m + n
later_suc m n = omega arith

get_elem?-behind :
    (s : Str) (n : ℕ) (rest : Str) → get_elem? (s ++ rest) (length s + n) ≡ get_elem? rest n
get_elem?-behind [] n rest = ap (get_elem? rest) (omega arith)
get_elem?-behind (x ∷ s) n rest =
    subst (λ i. get_elem? (x ∷ (s ++ rest)) i ≡ get_elem? rest n) (later_suc (length s) n)
      (get_elem?-behind s n rest)

drop-append : (s : Str) (n : ℕ) (rest : Str) → drop (length s + n) (s ++ rest) ≡ drop n rest
drop-append [] n rest = ap (λ i. drop i rest) (omega arith)
drop-append (x ∷ s) n rest =
    subst (λ i. drop i (x ∷ (s ++ rest)) ≡ drop n rest) (later_suc (length s) n)
      (drop-append s n rest)

get_elem?-end : (s : Str) → get_elem? (s ++ []) (length s) ≡ none
get_elem?-end [] = refl
get_elem?-end (x ∷ s) = get_elem?-end s

at_end :
    (values : List Str) (fuel : ℕ) (done : Str)
    → 0 < fuel
    → expand_loop fuel values (done ++ []) (length done) ≡ expanded (done ++ [])
unfolding expand_loop
at_end values zero done h = ground (arith, h)
at_end values (suc fuel) done h = rw (expand_loop, get_elem?-end done) (unfold expand_at in refl)

abbrev follow : ℕ → List Str → Step → Expansion
follow fuel values (ends end_of) = end_of
follow fuel values (goes_on further place) = expand_loop fuel values further place

-- One round at the character `c`
round :
    (values : List Str) (fuel : ℕ) (done : Str) (c : ℕ) (rest : Str) (v : Replacement)
    → (if c == b'%' then value_of values (get_elem? rest 0) else verbatim) ≡ v
    → expand_loop (suc fuel) values (done ++ c ∷ rest) (length done)
      ≡ follow fuel values (replaced (done ++ c ∷ rest) (length done) v)
unfolding expand_loop
round values fuel done c rest v e =
    rw (expand_loop, get_elem?-append done c rest)
      (unfold expand_at in rw (get_elem?-behind done 1 (c ∷ rest), e) refl)

prefixed-append : (a b : Str) (o : Expansion) → prefixed (a ++ b) o ≡ prefixed a (prefixed b o)
prefixed-append a b (expanded s) = ap expanded (append_assoc a b s)
prefixed-append a b null_used = refl
prefixed-append a b out_of_rounds = refl

copied :
    (values : List Str) (fuel : ℕ) (done : Str) (c : ℕ) (rest : Str) (next : Expansion)
    → expand_loop fuel values ((done ++ c ∷ []) ++ rest) (length (done ++ c ∷ []))
      ≡ prefixed (done ++ c ∷ []) next
    → expand_loop fuel values (done ++ c ∷ rest) (length done + 1)
      ≡ prefixed done (prefixed (c ∷ []) next)
copied values fuel done c rest next ih =
    subst
      (λ n. expand_loop fuel values (done ++ c ∷ rest) n ≡ prefixed done (prefixed (c ∷ []) next))
      (length-append done (c ∷ []))
      (subst
        (λ s.
          expand_loop fuel values s (length (done ++ c ∷ []))
          ≡ prefixed done (prefixed (c ∷ []) next))
        (append_assoc done (c ∷ []) rest) (ih ∙ prefixed-append done (c ∷ []) next))

inserted :
    (values : List Str) (fuel : ℕ) (done : Str) (c d : ℕ) (rest val : Str) (next : Expansion)
    → expand_loop fuel values ((done ++ val) ++ rest) (length (done ++ val))
      ≡ prefixed (done ++ val) next
    → follow fuel values (replaced (done ++ c ∷ d ∷ rest) (length done) (replacement val))
      ≡ prefixed done (prefixed val next)
unfolding replaced
inserted values fuel done c d rest val next ih =
    rw (take-append done (c ∷ d ∷ rest), drop-append done 2 (c ∷ d ∷ rest))
      (subst
        (λ n. expand_loop fuel values (done ++ (val ++ rest)) n ≡ prefixed done (prefixed val next))
        (length-append done val)
        (subst
          (λ s.
            expand_loop fuel values s (length (done ++ val)) ≡ prefixed done (prefixed val next))
          (append_assoc done val rest) (ih ∙ prefixed-append done val next)))

no_value :
    (values : List Str) (c : ℕ) → (if c == b'%' then value_of values none else verbatim) ≡ verbatim
no_value values c =
    if_both (λ (o : Replacement). o ≡ verbatim) (c == b'%') (unfold value_of in refl) refl

expand_from :
    (values : List Str) (fuel : ℕ) (done rest : Str)
    → length rest < fuel
    → expand_loop fuel values (done ++ rest) (length done) ≡ prefixed done (expand values rest)
unfolding expand joined replaced
expand_from values fuel done [] h = at_end values fuel done (omega (arith, h))
expand_from values zero done (c ∷ rest) h = ground (arith, h)
expand_from values (suc fuel) done (c ∷ []) h =
    round values fuel done c [] verbatim (no_value values c)
    ∙ copied values fuel done c [] (expanded [])
        (at_end values fuel (done ++ c ∷ []) (omega (arith, h)))
expand_from values (suc fuel) done (c ∷ d ∷ rest) h =
    step (expand_from values fuel) (if c == b'%' then value_of values (some d) else verbatim) refl
  where
    step :
        (again : (before after : Str)
          → length after < fuel
          → expand_loop fuel values (before ++ after) (length before)
            ≡ prefixed before (expand values after))
        (v : Replacement)
        → (if c == b'%' then value_of values (some d) else verbatim) ≡ v
        → expand_loop (suc fuel) values (done ++ c ∷ d ∷ rest) (length done)
          ≡ prefixed done (
              joined
                (if c == b'%' then value_of values (some d) else verbatim)
                c
                (expand values (d ∷ rest))
                (expand values rest))
    step again verbatim e =
        round values fuel done c (d ∷ rest) verbatim e
        ∙ copied values fuel done c (d ∷ rest) (expand values (d ∷ rest))
            (again (done ++ c ∷ []) (d ∷ rest) (omega (arith, h)))
        ∙ rw e refl
    step again (replacement val) e =
        round values fuel done c (d ∷ rest) (replacement val) e
        ∙ inserted values fuel done c d rest val (expand values rest)
            (again (done ++ val) rest (omega (arith, h)))
        ∙ rw e refl
    step again null_value e = round values fuel done c (d ∷ rest) null_value e ∙ rw e refl

-- The loop that expands the core pattern in place ends within one round more than the pattern has
-- characters, whatever the values are, and gives what one pass over the pattern gives, in which the
-- values are not looked at again: the text, or the use of the null pointer behind the values.
pub expand_loop-expand :
    (values : List Str) (fuel : ℕ) (basename : Str)
    → length basename < fuel
    → expand_loop fuel values basename 0 ≡ expand values basename
expand_loop-expand values fuel basename h =
    expand_from values fuel [] basename h ∙ nothing_before (expand values basename)
  where
    nothing_before : (o : Expansion) → prefixed [] o ≡ o
    nothing_before (expanded s) = refl
    nothing_before null_used = refl
    nothing_before out_of_rounds = refl
