-- ===== src/Broker/Updater/Lockstep.antt =====
-- A self-update that ends leaves both containers replaced, both as captured, or both alone
-- (apps/broker/src/self-update/updater.ts).
use Prim.Native.String
use docker_webmail_gui.Broker.Resolver.{RawContainerListItem}
use docker_webmail_gui.Broker.Updater.{
  UpdaterTarget, UpdaterOutcome, success, undone, aborted, void, recreate_and_wait_healthy, write,
  abort, report, Captured, capture, put_back, roll_back_server, roll_back_both, conclude,
  after_broker, swap_broker, after_server, swap_server, replace_both, located, locate,
  resolve_id_by_name, server_spec, broker_spec, pull_both, pulled, run_self_update, not_found,
  server_unhealthy, broker_unhealthy,
}
use docker_webmail_gui.Broker.Updater.ImageRefs.{version_from_reference}
use docker_webmail_gui.Broker.Updater.Calls.{
  Verdict, rolled_back, succeeded, failed, FailedAt, pre_flight, server_health, broker_health,
  in_progress, done, Call, write_result_file, Docker, Outcome, ok, throw, stuck, ◌>>=◌, ◌>>◌, pure,
}
use docker_webmail_gui.Broker.Updater.Events.{
  Event, listed, planned, events_from, events, silent, Yields, call-Fixed, bind-Yields, bind-Fixed,
  pure-Yields, if-Yields,
}
use docker_webmail_gui.Broker.Updater.Parts.{
  told, Named, FirstNamed, Named-FirstNamed, replaced, recreate_and_wait_healthy-Fixed,
  put_back-Yields, resolve_id_by_name-Yields, pull_both-IsQuiet, capture-Fixed,
}
use docker_webmail_gui.Common.{
  All, List, Option, String, append-nil, none, refl, some, ℕ, ◌++◌, ◌∷◌, ◌≡◌, [],
}

-- Before anything is touched: the containers are listed twice, the two ids are the first that have the
-- configured names, and Docker tells what the update captures of each.
pub record Prepared (target : UpdaterTarget) (server broker : String) (c : Captured)
    (first : List Event) : Type 0 where
  pub seen_first : List RawContainerListItem
  pub seen_next : List RawContainerListItem
  pub is_server : FirstNamed target.server_container_name seen_first server
  pub is_broker : FirstNamed target.broker_container_name seen_next broker
  pub is_told : first ≡ listed seen_first ∷ listed seen_next ∷ told server broker c

-- The rollback plan is written, and the server's container replaced by its new one.
abbrev pub server_swapped : UpdaterTarget → Captured → String → String → List Event
server_swapped target c server server_new =
    planned c.server_plan c.broker_plan ∷ replaced server (server_spec target c) server_new

-- And then the broker's container by its new one.
abbrev pub both_swapped : UpdaterTarget → Captured → String → String → String → String → List Event
both_swapped target c server server_new broker broker_new =
    server_swapped target c server server_new ++ replaced broker (broker_spec target c) broker_new

-- An event that only looks at the host.
abbrev pub IsLooking : Event → Type 0
IsLooking (listed containers) = Unit {0}
IsLooking _ = ⊥

-- What an update did on the host, for each way to end.
pub data Transaction (target : UpdaterTarget) : UpdaterOutcome → List Event → Type 0 where
  untouched :
      (reason : String) (done : List Event)
      → All IsLooking done
      → Transaction target (aborted reason) done
  swapped :
      (c : Captured) (server server_new broker broker_new : String) (first : List Event)
      → Prepared target server broker c first
      → Transaction target success
          (first ++ both_swapped target c server server_new broker broker_new)
  server_restored :
      (c : Captured) (server server_new broker back : String) (first : List Event)
      → Prepared target server broker c first
      → Transaction target (undone server_unhealthy) (
          first
          ++ (server_swapped target c server server_new ++ replaced server_new c.server_plan back))
  both_restored :
      (c : Captured) (server server_new broker broker_new server_back broker_back : String)
      (first : List Event)
      → Prepared target server broker c first
      → Transaction target (undone broker_unhealthy) (
          first
          ++ (both_swapped target c server server_new broker broker_new
              ++ (replaced server_new c.server_plan server_back
                  ++ replaced broker_new c.broker_plan broker_back)))

-- The transaction that goes on from these events.
abbrev After : UpdaterTarget → List Event → UpdaterOutcome → List Event → Type 0
After target first o rest = Transaction target o (first ++ rest)

module _ (d : Docker) (target : UpdaterTarget) where
  ending-Yields :
      (verdict : Verdict) (from : Option String) (to : String) (at : Option FailedAt)
      (reason : Option String) (outcome : UpdaterOutcome) (T : UpdaterOutcome → List Event → Type 0)
      → T outcome []
      → Yields d (write d (done verdict from to at reason) >> pure outcome) T
  ending-Yields verdict from to at reason outcome T t =
      bind-Fixed d (write d (done verdict from to at reason)) (λ _. pure outcome) silent T
        (call-Fixed d (write_result_file (done verdict from to at reason)) void silent
          (λ log. refl))
        (λ _. pure-Yields d outcome T t)

  roll_back_server-Yields :
      (c : Captured) (new_id : String) (T : UpdaterOutcome → List Event → Type 0)
      → ((back : String) → T (undone server_unhealthy) (replaced new_id c.server_plan back))
      → Yields d (roll_back_server d target c new_id) T
  unfolding roll_back_server
  roll_back_server-Yields c new_id T t =
      bind-Yields d (put_back d new_id c.server_plan)
        (λ _. report d target c server_health server_unhealthy)
        (λ _. λ new. (id : String) × (new ≡ replaced new_id c.server_plan id)) T
        (put_back-Yields d new_id c.server_plan)
        (λ _ new back. rw back.1 (
          ending-Yields rolled_back c.from_version (version_from_reference target.server_image_ref)
            (some server_health) (some server_unhealthy) (undone server_unhealthy)
            (λ o rest. T o (replaced new_id c.server_plan back.0 ++ rest)) (t back.0)))

  roll_back_both-Yields :
      (c : Captured) (server_new broker_new : String) (T : UpdaterOutcome → List Event → Type 0)
      → ((server_back broker_back : String)
          → T (undone broker_unhealthy) (
              replaced server_new c.server_plan server_back
              ++ replaced broker_new c.broker_plan broker_back))
      → Yields d (roll_back_both d target c server_new broker_new) T
  unfolding roll_back_both
  roll_back_both-Yields c server_new broker_new T t =
      bind-Yields d (put_back d server_new c.server_plan)
        (λ _. put_back d broker_new c.broker_plan >>= λ _.
          report d target c broker_health broker_unhealthy)
        (λ _. λ new. (id : String) × (new ≡ replaced server_new c.server_plan id)) T
        (put_back-Yields d server_new c.server_plan)
        (λ _ first server_back.
          bind-Yields d (put_back d broker_new c.broker_plan)
            (λ _. report d target c broker_health broker_unhealthy)
            (λ _. λ new. (id : String) × (new ≡ replaced broker_new c.broker_plan id))
            (λ o rest. T o (first ++ rest)) (put_back-Yields d broker_new c.broker_plan)
            (λ _ next broker_back.
              rw (server_back.1, broker_back.1)
                (ending-Yields rolled_back c.from_version
                  (version_from_reference target.server_image_ref) (some broker_health)
                  (some broker_unhealthy) (undone broker_unhealthy)
                  (λ o rest. T o (
                    replaced server_new c.server_plan server_back.0
                    ++ (replaced broker_new c.broker_plan broker_back.0 ++ rest)))
                  (t server_back.0 broker_back.0))))

  swap_broker-Yields :
      (fuel : ℕ) (c : Captured) (server server_new broker : String) (first : List Event)
      → Prepared target server broker c first
      → Yields d
          (swap_broker d fuel target c broker server_new)
          (λ o. λ rest. After target first o (server_swapped target c server server_new ++ rest))
  unfolding swap_broker conclude
  swap_broker-Yields fuel c server server_new broker first p =
      let T : UpdaterOutcome → List Event → Type 0 =
        λ o. λ rest. After target first o (server_swapped target c server server_new ++ rest) in
      bind-Fixed d (recreate_and_wait_healthy d fuel broker (broker_spec target c))
        (after_broker d target c server_new) (λ r. replaced broker (broker_spec target c) r.new_id)
        T (recreate_and_wait_healthy-Fixed d fuel broker (broker_spec target c))
        (λ r.
          let U : UpdaterOutcome → List Event → Type 0 =
            λ o. λ rest. T o (replaced broker (broker_spec target c) r.new_id ++ rest) in
          if-Yields d r.healthy (conclude d target c)
            (roll_back_both d target c server_new r.new_id) U
            (ending-Yields succeeded c.from_version (version_from_reference target.server_image_ref)
              none none success U (swapped c server server_new broker r.new_id first p))
            (roll_back_both-Yields c server_new r.new_id U (λ server_back broker_back.
              both_restored c server server_new broker r.new_id server_back broker_back first p)))

  replace_both-Yields :
      (fuel : ℕ) (server broker : String) (c : Captured) (first : List Event)
      → Prepared target server broker c first
      → Yields d (replace_both d fuel target server broker c) (After target first)
  unfolding replace_both swap_server
  replace_both-Yields fuel server broker c first p =
      let plan =
        in_progress (version_from_reference target.server_image_ref) c.server_plan c.broker_plan in
      let T : UpdaterOutcome → List Event → Type 0 =
        λ o. λ rest. After target first o (planned c.server_plan c.broker_plan ∷ rest) in
      bind-Fixed d (write d plan) (λ _. swap_server d fuel target c server broker)
        (λ _. planned c.server_plan c.broker_plan ∷ []) (After target first)
        (call-Fixed d (write_result_file plan) void (λ _. planned c.server_plan c.broker_plan ∷ [])
          (λ log. refl))
        (λ _.
          bind-Fixed d (recreate_and_wait_healthy d fuel server (server_spec target c))
            (after_server d fuel target c broker)
            (λ r. replaced server (server_spec target c) r.new_id) T
            (recreate_and_wait_healthy-Fixed d fuel server (server_spec target c))
            (λ r.
              let U : UpdaterOutcome → List Event → Type 0 =
                λ o. λ rest. T o (replaced server (server_spec target c) r.new_id ++ rest) in
              if-Yields d r.healthy (swap_broker d fuel target c broker r.new_id)
                (roll_back_server d target c r.new_id) U
                (swap_broker-Yields fuel c server r.new_id broker first p)
                (roll_back_server-Yields c r.new_id U
                  (λ back. server_restored c server r.new_id broker back first p))))

  abort-Yields :
      (reason : String) (first : List Event)
      → All IsLooking first
      → Yields d (abort d target reason) (After target first)
  abort-Yields reason first looking =
      ending-Yields failed none (version_from_reference target.server_image_ref) (some pre_flight)
        (some reason) (aborted reason) (After target first)
        (rw (append-nil first) (untouched reason first looking))

  located-Yields :
      (fuel : ℕ) (server broker : Option String) (seen_first seen_next : List RawContainerListItem)
      → Named target.server_container_name seen_first server
      → Named target.broker_container_name seen_next broker
      → Yields d
          (located d fuel target server broker)
          (After target (listed seen_first ∷ listed seen_next ∷ []))
  located-Yields fuel none broker seen_first seen_next h k =
      abort-Yields not_found (listed seen_first ∷ listed seen_next ∷ []) (tt, (tt, tt))
  located-Yields fuel (some server) none seen_first seen_next h k =
      abort-Yields not_found (listed seen_first ∷ listed seen_next ∷ []) (tt, (tt, tt))
  located-Yields fuel (some server) (some broker) seen_first seen_next h k =
      let first = listed seen_first ∷ listed seen_next ∷ [] in
      bind-Fixed d (capture d server broker) (replace_both d fuel target server broker)
        (told server broker) (After target first) (capture-Fixed d server broker)
        (λ c. replace_both-Yields fuel server broker c (first ++ told server broker c) (record {
          seen_first = seen_first;
          seen_next = seen_next;
          is_server = Named-FirstNamed target.server_container_name seen_first server h;
          is_broker = Named-FirstNamed target.broker_container_name seen_next broker k;
          is_told = refl;
        }))

  locate-Yields : (fuel : ℕ) → Yields d (locate d fuel target) (Transaction target)
  unfolding locate
  locate-Yields fuel =
      bind-Yields d (resolve_id_by_name d target.server_container_name)
        (λ server.
          resolve_id_by_name d target.broker_container_name >>= located d fuel target server)
        (λ id. λ new.
          (seen : List RawContainerListItem) × (new ≡ listed seen ∷ [])
          × Named target.server_container_name seen id)
        (Transaction target) (resolve_id_by_name-Yields d target.server_container_name)
        (λ server first f.
          bind-Yields d (resolve_id_by_name d target.broker_container_name)
            (located d fuel target server)
            (λ id. λ new.
              (seen : List RawContainerListItem) × (new ≡ listed seen ∷ [])
              × Named target.broker_container_name seen id)
            (After target first) (resolve_id_by_name-Yields d target.broker_container_name)
            (λ broker next n. rw (f.1, n.1) (located-Yields fuel server broker f.0 n.0 f.2 n.2)))

  pulled-Yields :
      (fuel : ℕ) (r : Outcome (Unit {0}) × List Call) (o : UpdaterOutcome)
      → (pulled d fuel target r).0 ≡ ok o
      → (new : List Event) × Transaction target o new
        × (events d (pulled d fuel target r).1 ≡ events d r.1 ++ new)
  pulled-Yields fuel (ok u, log) o e = locate-Yields fuel log o e
  pulled-Yields fuel (throw x, log) o e =
      abort-Yields (String.◌++◌ "Could not pull one or both target images: " x) [] tt log o e
  pulled-Yields fuel (stuck, log) o e = cc

-- Where a self-update returns, its calls that list, capture, remove, create or start containers, inspect an
-- image or write the plan, and that did not throw, are, with Docker's answers and in their order, those of one
-- of four transactions, which its outcome names. Aborted: the containers were listed at most. In the other
-- three, the ids of the server and of the broker are those of the first containers listed with the configured
-- names, the plans are what Docker told of these ids, and the old images what it told of the plans' images,
-- if anything; the file with both plans is written; the server's container is removed, and one of its new
-- specification is created and started. Success: then the same with the broker's container. The server's
-- health failed: then the server's new container is removed, and one of the server's plan, unchanged, created
-- and started, and the broker's is left alone. The broker's failed: both are replaced, and then both the new
-- containers are removed, and one of the plan of each is created and started, the server's first.
pub run_self_update-Transaction :
    (d : Docker) (fuel : ℕ) (target : UpdaterTarget) (o : UpdaterOutcome)
    → (run_self_update d fuel target []).0 ≡ ok o
    → Transaction target o (events d (run_self_update d fuel target []).1)
unfolding run_self_update events_from
run_self_update-Transaction d fuel target o e =
    let r = pulled-Yields d target fuel (pull_both d target []) o e in
    rw (r.2, pull_both-IsQuiet d target []) r.1
