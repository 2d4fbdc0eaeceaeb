-- ===== src/Server/Notice.antt =====
-- The line by which the server tells the daemon of a new problem, and what the daemon makes of it.
use abrt.Base.{
  ℕ, ◌≡◌, refl, Bool, true, false, List, [], ◌∷◌, ◌++◌, Option, none, some, ◌==◌, if◌then◌else◌,
  Str, starts_with, length, drop, arith, codes, not, ◌&&◌, ◌||◌, ap, sym, ◌∙◌, append_assoc,
  Bool-cases, inl, inr,
}
use abrt.UploadWatch.{strrchr}
use abrt.Daemon.{Daemon, detected_prefix, new_problem_detected, server_output, server_output_cb}
use abrt.Daemon.Queue.{has_slash}
use abrt.Server.PostCreate.{behind_last, notified_name, announcement}

-- A suffix that `strrchr` finds has no further slash.
AfterLast : Str → Option Str → Type 0
AfterLast s none = has_slash s ≡ false
AfterLast s (some found) = has_slash (drop 1 found) ≡ false

one_more :
    (c : ℕ) (s : Str) (o : Option Str)
    → AfterLast s o
    → AfterLast
        (c ∷ s)
        (elim o [ some found ↦ some found | none ↦ if c == b'/' then some (c ∷ s) else none ])
unfolding AfterLast
one_more c s none h = elim (Bool-cases (c == b'/')) [ inl e ↦ rw e h | inr e ↦ rw e (rw e h) ]
one_more c s (some found) h = h

strrchr-AfterLast : (s : Str) → AfterLast s (strrchr s b'/')
unfolding strrchr
strrchr-AfterLast [] = unfold AfterLast in refl
strrchr-AfterLast (c ∷ s) = one_more c s (strrchr s b'/') (strrchr-AfterLast s)

behind_last-free : (s : Str) (o : Option Str) → AfterLast s o → has_slash (behind_last o) ≡ false
unfolding AfterLast
behind_last-free s none h = refl
behind_last-free s (some found) h = h

prefix_append : (p s : Str) → (starts_with p (p ++ s) ≡ true) × (drop (length p) (p ++ s) ≡ s)
unfolding starts_with
prefix_append [] s = (refl, refl)
prefix_append (c ∷ p) s = (ground (arith, (prefix_append p s).0), (prefix_append p s).1)

-- U+2029, at which GLib cuts as well
abbrev paragraph_separator : Str
paragraph_separator = 226 ∷ 128 ∷ 169 ∷ []

-- No end of a line that GLib detects
unfoldable pub is_one_line : Str → Bool
is_one_line [] = true
is_one_line (c ∷ s) =
    not ((c == 0) || (c == b'\n') || (c == b'\r') || starts_with paragraph_separator (c ∷ s))
    && is_one_line s

-- What is asked of g_io_channel_read_line: it gives a line up to its newline, then the others.
abbrev pub ReadsLines : (Str → List Str) → Type 0
ReadsLines read_lines =
    (line rest : Str)
    → is_one_line line ≡ true
    → read_lines (line ++ (codes "\n" ++ rest)) ≡ line ∷ read_lines rest

prefix-is_one_line :
    (name : Str) → is_one_line name ≡ true → is_one_line (detected_prefix ++ name) ≡ true
unfolding is_one_line starts_with
prefix-is_one_line name h = h

announcement-line :
    (dirname rest : Str)
    → announcement dirname ++ rest
      ≡ (detected_prefix ++ notified_name dirname) ++ (codes "\n" ++ rest)
announcement-line dirname rest =
    append_assoc detected_prefix (notified_name dirname ++ codes "\n") rest
    ∙ ap (λ s. detected_prefix ++ s) (append_assoc (notified_name dirname) (codes "\n") rest)
    ∙ sym (append_assoc detected_prefix (notified_name dirname) (codes "\n" ++ rest))

announced :
    (largest : Str → List Str) (told : ℕ → Bool) (proc : ℕ) (name : Str) (lines : List Str)
    (daemon : Daemon)
    → server_output largest told proc ((detected_prefix ++ name) ∷ lines) daemon
      ≡ server_output largest told proc lines (new_problem_detected largest told daemon proc name)
unfolding server_output
announced largest told proc name lines daemon =
    rw ((prefix_append detected_prefix name).0, (prefix_append detected_prefix name).1) refl

-- The daemon reads the announcement of a directory back from a server's output as the directory's name,
-- and goes on with what is written behind it, if the name is one line; the name is the part of the path
-- behind the last slash and has no slash itself.
pub output-announcement :
    (read_lines largest : Str → List Str) (told : ℕ → Bool) (proc : ℕ) (dirname rest : Str)
    (daemon : Daemon)
    → ReadsLines read_lines
    → is_one_line (notified_name dirname) ≡ true
    → (server_output_cb read_lines largest told proc (announcement dirname ++ rest) daemon
        ≡ server_output_cb read_lines largest told proc rest
            (new_problem_detected largest told daemon proc (notified_name dirname)))
      × (has_slash (notified_name dirname) ≡ false)
output-announcement read_lines largest told proc dirname rest daemon reads one = (
  unfold server_output_cb in
      ap (λ text. server_output largest told proc (read_lines text) daemon)
        (announcement-line dirname rest)
      ∙ ap (λ lines. server_output largest told proc lines daemon)
          (reads (detected_prefix ++ notified_name dirname) rest (prefix-is_one_line _ one))
      ∙ announced largest told proc (notified_name dirname) (read_lines rest) daemon,
  unfold notified_name in
      behind_last-free dirname (strrchr dirname b'/') (strrchr-AfterLast dirname),
)
