-- ===== src/Daemon/Clients.antt =====
-- The limit of clients: the socket is watched while there is room for a further one.
use abrt.Base.{
  ℕ, ◌≡◌, refl, sym, ◌∙◌, subst, ◌≤◌, ◌+◌, Bool, true, false, not, List, [], ◌∷◌, ◌&&◌, Option,
  none, some, Str, arith, if_both, length, length-append, ltb, if◌then◌else◌,
}
use abrt.Session.{find_task, list_remove}
use abrt.Daemon.{
  Daemon, Waited, exited, traced, max_client_count, notify_next, has_dirname, take_dirname,
  unprocessed, clean_location, append_if, consider_processing, queue_post_create_process,
  out_of_queue, new_problem_detected, add_server, freed_server, watch_socket, remove_server,
  handle_children,
}
use abrt.Daemon.Exclusive.{Reach, nobody, connects, detects, child_signal}

pub record IsLimited (d : Daemon) : Type 0 where
  pub bounded : length d.processes ≤ max_client_count
  pub watched : d.accepting ≡ ltb (length d.processes) max_client_count

abbrev clients : Daemon → List ℕ × Bool
clients d = (d.processes, d.accepting)

moved : (d e : Daemon) → clients e ≡ clients d → IsLimited d → IsLimited e
moved d e same v = record {
  bounded = subst (λ (c : List ℕ × Bool). length c.0 ≤ max_client_count) (sym same) v.bounded;
  watched =
      subst (λ (c : List ℕ × Bool). c.1 ≡ ltb (length c.0) max_client_count) (sym same) v.watched;
}

clients-notify_next :
    (told : ℕ → Bool) (queue : List ℕ) (d : Daemon) → clients (notify_next told queue d) ≡ clients d
unfolding notify_next
clients-notify_next told [] d = refl
clients-notify_next told (n ∷ queue) d =
    if_both (λ (e : Daemon). clients e ≡ clients d) (d.post_create n) refl
      (if_both (λ (e : Daemon). clients e ≡ clients d) (told n) refl
        (clients-notify_next told queue d))

clients-unprocessed : (o : Option (ℕ × List ℕ)) (d : Daemon) → clients (unprocessed o d) ≡ clients d
unfolding unprocessed
clients-unprocessed none d = refl
clients-unprocessed (some (m, rest)) d = refl

clients-clean_location :
    (dirs : List Str) (proc : ℕ) (stands : Bool) (d : Daemon)
    → clients (clean_location dirs proc stands d).1 ≡ clients d
unfolding clean_location
clients-clean_location [] proc stands d = refl
clients-clean_location (worst ∷ dirs) proc stands d =
    if_both (λ (r : Bool × Daemon). clients r.1 ≡ clients d) (stands && has_dirname d worst proc)
      (clients-clean_location dirs proc false _)
      (clients-clean_location dirs proc stands _
        ∙ clients-unprocessed (take_dirname d worst d.dir_queue) d)

clients-append_if : (r : Bool × Daemon) (proc : ℕ) → clients (append_if r proc) ≡ clients r.1
unfolding append_if
clients-append_if (true, d) proc = refl
clients-append_if (false, d) proc = refl

clients-consider_processing :
    (queue : List ℕ) (told : ℕ → Bool) (d : Daemon)
    → clients (consider_processing queue told d) ≡ clients d
unfolding consider_processing
clients-consider_processing [] told d = clients-notify_next told d.dir_queue d
clients-consider_processing (n ∷ queue) told d = refl

clients-out_of_queue :
    (o : Option Str) (d : Daemon) (proc : ℕ) → clients (out_of_queue o d proc) ≡ clients d
unfolding out_of_queue
clients-out_of_queue none d proc = refl
clients-out_of_queue (some dir) d proc = refl

clients-new_problem_detected :
    (largest : Str → List Str) (told : ℕ → Bool) (d : Daemon) (proc : ℕ) (dir : Str)
    → clients (new_problem_detected largest told d proc dir) ≡ clients d
unfolding new_problem_detected queue_post_create_process
clients-new_problem_detected largest told d proc dir =
    if_both (λ (e : Daemon). clients e ≡ clients d) (not (find_task d.processes proc)) refl
      (clients-consider_processing _ told _
        ∙ clients-append_if _ proc
        ∙ clients-clean_location _ proc true _
        ∙ clients-out_of_queue (d.dirname proc) d proc)

length-list_remove :
    (ps : List ℕ) (p : ℕ) → find_task ps p ≡ true → length (list_remove ps p) + 1 ≡ length ps
unfolding find_task list_remove
length-list_remove [] p h = ground (arith, h)
length-list_remove (n ∷ ps) p h = ground (arith, length-list_remove ps p)

add_server-IsLimited :
    (d : Daemon) (pid : ℕ) → d.accepting ≡ true → IsLimited d → IsLimited (add_server d pid)
unfolding add_server
add_server-IsLimited d pid h v = record {
  bounded = ground (arith, h, v.watched, length-append d.processes (pid ∷ []));
  watched = ground (arith, h);
}

watch_socket-IsLimited :
    (d e : Daemon)
    → clients e ≡ clients d
    → length d.processes + 1 ≤ max_client_count
    → IsLimited (watch_socket e)
watch_socket-IsLimited d e same h =
    let fewer : length e.processes + 1 ≤ max_client_count =
      subst (λ (c : List ℕ × Bool). length c.0 + 1 ≤ max_client_count) (sym same) h in
    record { bounded = ground arith; watched = ground arith }

remove_server-IsLimited :
    (told : ℕ → Bool) (d : Daemon) (pid : ℕ) → IsLimited d → IsLimited (remove_server told d pid)
unfolding remove_server
remove_server-IsLimited told d pid v = by_live (find_task d.processes pid) refl
  where
    gone : Daemon
    gone = freed_server d pid

    by_live :
        (b : Bool)
        → find_task d.processes pid ≡ b
        → IsLimited (
            if not b
            then d
            else watch_socket (
                if d.post_create pid
                then notify_next told (list_remove d.dir_queue pid) (freed_server d pid)
                else freed_server d pid))
    by_live false h = v
    by_live true h =
        watch_socket-IsLimited (freed_server d pid) _
          (if_both (λ (e : Daemon). clients e ≡ clients (freed_server d pid)) (d.post_create pid)
            (clients-notify_next told (list_remove d.dir_queue pid) (freed_server d pid)) refl)
          (ground (arith, length-list_remove d.processes pid h, v.bounded))

children-IsLimited :
    (told : ℕ → Bool) (children : List Waited) (d : Daemon)
    → IsLimited d
    → IsLimited (handle_children told children d)
unfolding handle_children
children-IsLimited told [] d v = v
children-IsLimited told (exited cpid ∷ children) d v =
    children-IsLimited told children _ (remove_server-IsLimited told d cpid v)
children-IsLimited told (traced cpid ∷ children) d v = children-IsLimited told children d v

-- At any time there are ten processes at most, and the socket is watched exactly while there are fewer
-- than ten.
pub Reach-IsLimited : {d : Daemon} → Reach d → IsLimited d
Reach-IsLimited nobody = record { bounded = ground arith; watched = refl }
Reach-IsLimited (connects {d} pid r watched fresh) =
    add_server-IsLimited d pid watched (Reach-IsLimited r)
Reach-IsLimited (detects {d} largest told proc dir r ignoring slash new) =
    moved d _ (clients-new_problem_detected largest told d proc dir) (Reach-IsLimited r)
Reach-IsLimited (child_signal {d} told children r) =
    children-IsLimited told children d (Reach-IsLimited r)
