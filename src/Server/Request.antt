-- ===== src/Server/Request.antt =====
-- src/daemon/abrt-server.c: from the request of a client to what is done for it. An EOF before the end
-- of the header leaves the buffer without a NUL; it is taken as if it had one.
use abrt.Base.{
  ℕ, Bool, false, not, ◌&&◌, ◌||◌, List, [], ◌∷◌, Option, none, some, is_some, ◌==◌, if◌then◌else◌,
  Str, codes, starts_with, ltb, leb, length, drop, ◌+◌, ◌-◌, ◌*◌,
}
use abrt.Server.{
  ProblemInfo, info_lookup, Policy, UrlType, creation_notification, creation_request, cut_at,
  c_text, read_body, Header, read_header,
}

-- What the system tells the program: the client's uid and pid, whether the crash of an executable is a
-- repeated one, and whether the client is in the PID namespace of the server, if that can be read.
pub record Client : Type 0 where
  pub client_uid : ℕ
  pub client_pid : ℕ
  pub repeating_crash : Str → Bool
  pub same_pid_namespace : Option Bool

-- What `perform_http_xact` does in the end
pub data Action : Type 0 where
  die : Action
  answer : ℕ → Action
  delete_path_of : Str → Action
  post_create_of : Str → Action
  create_problem_dir_of : ProblemInfo → ℕ → Action

unfoldable pub is_space : ℕ → Bool
is_space c = (c == b' ') || (leb 9 c && leb c 13)

unfoldable pub skip_spaces : Str → Str
skip_spaces [] = []
skip_spaces (c ∷ s) = if is_space c then skip_spaces s else c ∷ s

unfoldable pub digits : ℕ → Str → Option ℕ
digits value [] = some value
digits value (c ∷ s) = if leb b'0' c && leb c b'9' then digits (value * 10 + (c - b'0')) s else none

unfoldable pub some_digits : Str → Option ℕ
some_digits [] = none
some_digits (c ∷ s) = digits 0 (c ∷ s)

-- `strtol` in base ten on a text that it has to consume: a negative number is below one, as is zero.
unfoldable pub signed : Str → Option ℕ
unfolding some_digits
signed [] = none
signed (c ∷ s) =
    if c == b'+'
    then some_digits s
    else if c == b'-'
    then elim (some_digits s) [ none ↦ none | some n ↦ some 0 ]
    else some_digits (c ∷ s)

-- A number that does not fit a long sets errno; it is above UINT_MAX, too.
unfoldable pub pid_in_range : Option ℕ → Option ℕ
pid_in_range none = none
pid_in_range (some ret) = if ltb 4294967295 ret || ltb ret 1 then none else some ret

unfoldable pub convert_pid : Option Str → Option ℕ
unfolding signed pid_in_range
convert_pid none = none
convert_pid (some pid_str) = pid_in_range (signed (skip_spaces pid_str))

-- `die_if_data_is_missing`
abbrev pub is_data_missing : ProblemInfo → Bool
is_data_missing table =
    not (is_some (info_lookup (codes "type") table))
    || not (is_some (info_lookup (codes "reason") table))

abbrev pub is_repeated : Client → Option Str → Bool
is_repeated client none = false
is_repeated client (some executable) = client.repeating_crash executable

unfoldable pub with_namespace : Client → ProblemInfo → ℕ → Option Bool → Action
with_namespace client table pid none = die
with_namespace client table pid (some same) =
    create_problem_dir_of table (if same then pid else client.client_pid)

unfoldable pub with_pid : Client → ProblemInfo → Option ℕ → Action
unfolding with_namespace
with_pid client table none = die
with_pid client table (some pid) = with_namespace client table pid client.same_pid_namespace

-- After the body: none where the program has died while it read it.
unfoldable pub after_body : Client → UrlType → Option (ProblemInfo × Str) → Action
unfolding with_pid
after_body client url none = die
after_body client creation_notification (some (table, buffer)) =
    if not (client.client_uid == 0) then answer 403 else post_create_of (c_text buffer)
after_body client creation_request (some (table, buffer)) =
    if is_data_missing table
    then die
    else if is_repeated client (info_lookup (codes "executable") table)
    then answer 0
    else with_pid client table (convert_pid (info_lookup (codes "pid") table))

unfoldable pub with_body : Policy → Client → UrlType → List Str → ℕ → Option Str → Action
unfolding after_body
with_body policy client url reads total none = answer 400
with_body policy client url reads total (some body) =
    after_body client url (read_body policy url reads total ([], body))

-- `prefixcmp(s, p) == 0` gives what follows the prefix.
unfoldable pub behind : Str → Str → Option Str
behind p s = if starts_with p s then some (drop (length p) s) else none

abbrev pub skip_non_whitespace : Str → Str
skip_non_whitespace [] = []
skip_non_whitespace (c ∷ s) = if is_space c then c ∷ s else skip_non_whitespace s

abbrev pub url_type : Str → Option UrlType
url_type url =
    if starts_with (codes "/creation_notification ") url
    then some creation_notification
    else if starts_with (codes "/ ") url
    then some creation_request
    else none

unfoldable pub delete_request : Option (Str × Str) → Action
delete_request none = answer 400
delete_request (some (path, rest)) =
    if not (starts_with (codes "HTTP/") rest) then answer 400 else delete_path_of path

unfoldable pub creation : Policy → Client → Header → Option UrlType → Action
unfolding with_body
creation policy client header none = answer 400
creation policy client header (some url) =
    with_body policy client url header.reads_left header.total_bytes header.body_start

unfoldable pub by_method : Policy → Client → Header → Option Str → Action
unfolding delete_request creation
by_method policy client header (some path) = delete_request (cut_at b' ' path)
by_method policy client header none =
    if not (starts_with (codes "PUT ") header.line) && not (starts_with (codes "POST ") header.line)
    then answer 400
    else creation policy client header (url_type (drop 1 (skip_non_whitespace header.line)))

unfoldable pub perform_header : Policy → Client → Option Header → Action
unfolding by_method
perform_header policy client none = die
perform_header policy client (some header) =
    by_method policy client header (behind (codes "DELETE ") header.line)

-- `reads` are the bytes of each read until EOF.
unfoldable pub perform_http_xact : Policy → Client → List Str → Action
perform_http_xact policy client reads = perform_header policy client (read_header reads [] 0)

-- The directory that the server calls `run_post_create` with, if any; `create` gives the path of the
-- directory that `create_problem_dir` makes, unless the program exits before.
unfoldable pub post_create_dir : (ProblemInfo → ℕ → Option Str) → Action → Option Str
post_create_dir create die = none
post_create_dir create (answer code) = none
post_create_dir create (delete_path_of path) = none
post_create_dir create (post_create_of path) = some path
post_create_dir create (create_problem_dir_of table pid) = create table pid
