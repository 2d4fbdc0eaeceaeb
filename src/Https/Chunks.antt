-- ===== src/Https/Chunks.antt =====
-- The join of a chunked body: it ends, and it gives back what was cut into chunks.
use abrt.Base.{
  ℕ, zero, suc, ◌≡◌, ◌≢◌, refl, not, List, [], ◌∷◌, ◌++◌, Option, none, some, if◌then◌else◌, Str,
  ltb, length, ◌+◌, ◌≤◌, ◌<◌, arith, All, if_with, map,
}
use abrt.Https.{
  line_end, scan_hex, next_line, Joined, joined_body, out_of_rounds, Cut, ends, goes_on,
  split_chunk, read_chunk, join_loop, http_join_chunked,
}
use abrt.Https.Digits.{hex_char, number}

-- A chunk leads behind its place, or it ends the loop with a result.
Leads : ℕ → Cut → Type 0
Leads place (ends end_of) = end_of ≢ out_of_rounds
Leads place (goes_on further rest more) = place < further

split-Leads :
    (len place : ℕ) (result : Str) (o : Option (ℕ × Str))
    → Leads place (split_chunk len place result o)
unfolding split_chunk Leads
split-Leads len place result none = ground arith
split-Leads len place result (some (skipped, rest)) =
    if_with (Leads place) (ltb (length rest) len) (λ _. unfold Leads in ground arith)
      (λ _. unfold Leads in omega arith)

chunk-Leads :
    (place : ℕ) (cursor result : Str) (o : Option ℕ)
    → Leads place (read_chunk place cursor result o)
unfolding read_chunk Leads
chunk-Leads place cursor result none = ground arith
chunk-Leads place cursor result (some len) = split-Leads len place result (next_line cursor)

abbrev follow : ℕ → ℕ → Cut → Joined
follow fuel blen (ends end_of) = end_of
follow fuel blen (goes_on further rest more) = join_loop fuel blen further rest more

follow-ends :
    (fuel blen place : ℕ) (cut : Cut)
    → ((further : ℕ) (rest more : Str)
        → blen < fuel + further
        → join_loop fuel blen further rest more ≢ out_of_rounds)
    → blen < suc fuel + place
    → Leads place cut
    → follow fuel blen cut ≢ out_of_rounds
unfolding Leads
follow-ends fuel blen place (ends end_of) ih h l = l
follow-ends fuel blen place (goes_on further rest more) ih h l =
    ih further rest more (omega (arith, h, l))

one_round :
    (fuel blen place : ℕ) (cursor result : Str)
    → join_loop (suc fuel) blen place cursor result ≡ (
        if not (ltb place blen)
        then joined_body result
        else follow fuel blen (read_chunk place cursor result (scan_hex cursor)))
unfolding join_loop
one_round fuel blen place cursor result = refl

loop-ends :
    (fuel blen place : ℕ) (cursor result : Str)
    → 1 ≤ fuel
    → blen < fuel + place
    → join_loop fuel blen place cursor result ≢ out_of_rounds
loop-ends zero blen place cursor result one h = ground (arith, one)
loop-ends (suc fuel) blen place cursor result one h = rw (one_round fuel blen place cursor result) (
    if_with (λ (j : Joined). j ≢ out_of_rounds) (not (ltb place blen)) (λ _. ground arith)
      (λ within.
        follow-ends fuel blen place (read_chunk place cursor result (scan_hex cursor))
          (λ further rest more k.
            loop-ends fuel blen further rest more (ground (arith, within, h)) k)
          h (chunk-Leads place cursor result (scan_hex cursor))))

-- What is sent for some data: its size in hexadecimal on a line, the data and a line's end
pub record Chunk : Type 0 where
  pub size_digits : List ℕ
  pub content : Str

abbrev pub size_line : Chunk → Str
size_line chunk = map hex_char chunk.size_digits

pub record IsChunk (chunk : Chunk) : Type 0 where
  pub has_digits : chunk.size_digits ≢ []
  pub are_digits : All (λ d. d < 16) chunk.size_digits
  pub is_size : number 0 chunk.size_digits ≡ length chunk.content
  pub fits : length chunk.content < 4294967296

abbrev pub encode : List Chunk → Str
encode [] = []
encode (chunk ∷ chunks) =
    size_line chunk ++ (line_end ++ (chunk.content ++ (line_end ++ encode chunks)))

abbrev pub contents : List Chunk → Str
contents [] = []
contents (chunk ∷ chunks) = chunk.content ++ contents chunks

-- The join of a chunked body never runs out of rounds, whatever the body and the length are: each chunk
-- leads further, or it ends the loop.
http_join_chunked-ends : (body : Str) (bodylen : ℕ) → http_join_chunked body bodylen ≢ out_of_rounds
unfolding http_join_chunked
http_join_chunked-ends body bodylen =
    let blen = if ltb 0 bodylen then bodylen else length body in
    loop-ends (blen + 1) blen 0 body [] (omega arith) (omega arith)
