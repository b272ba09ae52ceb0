-- ===== src/Server/Safe.antt =====
-- The parts of the handlers keep what holds between them.
use mathlib.Core.Path.{subst, fun_ext}
use monitor_system.Base.{ℕ, ◌≡◌, sym, ap, ◌∙◌, List, [], ◌∷◌, some, All, ok, dangling}
use monitor_system.Server.{Server, drop_fd}
use monitor_system.Server.Clients.{Ascending, insert-Ascending}
use monitor_system.Server.Login.{Arrival, new_client, add_to_reactor}
use monitor_system.Server.Dispatch.{Event}
use monitor_system.Server.Heartbeat.{faults, walk, heart_beat}
use monitor_system.Server.Threads.{
  DispatchAt, removes, LoginAt, accepting, entering, registering, waiting, handling, testing,
  Threads, accept_client, enter, take_event, Part, accepts, enters, registers, reports, receives,
  routes, ends, beats, Runs, at_start, after,
}
use monitor_system.Server.Addresses.{
  address_at, walk-removed, walk-Ascending, heart_beat-removed, heart_beat-Ascending,
  heart_beat-addresses, entered_at, route-same, beat-reactor, take_event-same, add_to_reactor-same,
}
use monitor_system.Server.Sound.{
  IsKnown, Relies, left, IsSound, IsSafe, without_address, remove-IsSound, accept_client-Looked,
  reported, enter-IsSound,
}

-- The same addresses and the same reactor.
same-IsSafe :
    (s : Threads) (gone : List ℕ) (t : Server)
    → ((k : ℕ) → address_at t.clients k ≡ address_at s.server.clients k)
    → t.reactor ≡ s.server.reactor
    → (Ascending s.server.clients → Ascending t.clients)
    → IsSafe s gone
    → IsSafe (record s { server = t }) gone
same-IsSafe s gone t same reactor ordered h = record {
  ordered = ordered h.ordered;
  sound =
      subst (λ f. IsSound f gone t.reactor s.login s.events) (sym (fun_ext same))
        (subst (λ r. IsSound (address_at s.server.clients) gone r s.login s.events) (sym reactor)
          h.sound);
}

accepts-IsSafe :
    (s : Threads) (gone : List ℕ) (a : Arrival) (t : Server) (at : LoginAt)
    → accept_client s.server a ≡ ok (t, at)
    → IsSafe s gone
    → IsSafe (record s { server = t; login = at }) gone
accepts-IsSafe s gone a t at e h =
    let (clients, reactor, relies) = accept_client-Looked gone s.server t a at e in
    same-IsSafe (record s { login = at }) gone t (λ k. ap (λ m. address_at m k) clients) reactor
      (subst Ascending (sym clients))
      (record {
        ordered = h.ordered;
        sound = record {
          registered = h.sound.registered;
          sole = h.sound.sole;
          relies = relies;
          known = h.sound.known;
        };
      })

enters-IsSafe :
    (s : Threads) (gone : List ℕ) (fd : ℕ) (a : Arrival)
    → s.login ≡ entering fd a
    → IsSafe s gone
    → IsSafe (record s { server = enter s.server fd a; login = registering fd a }) (drop_fd fd gone)
unfolding enter
enters-IsSafe s gone fd a place h =
    let here =
      subst (λ l. IsSound (address_at s.server.clients) gone s.server.reactor l s.events) place
        h.sound in
    record {
      ordered = insert-Ascending fd (new_client a) s.server.clients h.ordered;
      sound =
          subst (λ f. IsSound f (drop_fd fd gone) s.server.reactor (registering fd a) s.events)
            (sym (fun_ext (entered_at s.server.clients fd a)))
            (enter-IsSound (address_at s.server.clients) gone s.server.reactor s.events fd a here);
    }

registers-IsSafe :
    (s : Threads) (gone : List ℕ) (fd : ℕ) (a : Arrival)
    → s.login ≡ registering fd a
    → IsSafe s gone
    → IsSafe (record s { server = add_to_reactor s.server fd a.watched; login = accepting }) gone
registers-IsSafe s gone fd a place h =
    let (clients, added) = add_to_reactor-same s.server fd a.watched in
    let at = address_at s.server.clients in
    let here = subst (Relies at gone) place h.sound.relies in
    record {
      ordered = subst Ascending (sym clients) h.ordered;
      sound =
          subst
            (λ m.
              IsSound (address_at m) gone (add_to_reactor s.server fd a.watched).reactor accepting
                s.events)
            (sym clients)
            (record {
              registered = added (IsKnown at gone) here h.sound.registered;
              sole = h.sound.sole;
              relies = tt;
              known = h.sound.known;
            });
    }

receives-IsSafe :
    (s : Threads) (gone : List ℕ) (e : Event) (es : List Event)
    → s.events ≡ handling (e ∷ es)
    → IsSafe s gone
    → IsSafe (record s { server = take_event s.server e; events = testing e es }) gone
receives-IsSafe s gone e es place h =
    let (clients, dropped) = take_event-same s.server e in
    let at = address_at s.server.clients in
    record {
      ordered = subst Ascending (sym clients) h.ordered;
      sound =
          subst
            (λ m.
              IsSound (address_at m) gone (take_event s.server e).reactor s.login (testing e es))
            (sym clients)
            (record {
              registered = dropped (IsKnown at gone) h.sound.registered;
              sole = h.sound.sole;
              relies = h.sound.relies;
              known = subst (λ v. All (λ x. IsKnown at gone x.sockfd) (left v)) place h.sound.known;
            });
    }

removes-IsSafe :
    (s : Threads) (gone : List ℕ) (fd : ℕ) (t : Server)
    → (walk s.server.clients).removed ≡ some fd
    → heart_beat s.server ≡ faults dangling t
    → IsSafe s gone
    → IsSafe (record s { server = t }) (fd ∷ gone)
removes-IsSafe s gone fd t removed e h =
    let (clients, reactor) = heart_beat-removed s.server t fd removed e in
    let addresses : (k : ℕ)
        → address_at t.clients k ≡ without_address fd (address_at s.server.clients) k =
      λ k.
        ap (λ m. address_at m k) clients ∙ walk-removed s.server.clients fd k h.ordered removed in
    record {
      ordered = subst Ascending (sym clients) (walk-Ascending s.server.clients h.ordered);
      sound =
          subst (λ f. IsSound f (fd ∷ gone) t.reactor s.login s.events) (sym (fun_ext addresses))
            (subst
              (λ r.
                IsSound (without_address fd (address_at s.server.clients)) (fd ∷ gone) r s.login
                  s.events)
              (sym reactor)
              (remove-IsSound (address_at s.server.clients) gone s.server.reactor s.login s.events
                fd h.sound));
    }

-- The dispatcher goes on to other events.
moves_on :
    (s : Threads) (gone : List ℕ) (events : DispatchAt)
    → All (λ e. IsKnown (address_at s.server.clients) gone e.sockfd) (left events)
    → IsSafe s gone
    → IsSafe (record s { events = events }) gone
moves_on s gone events known h = record {
  ordered = h.ordered;
  sound = record {
    registered = h.sound.registered;
    sole = h.sound.sole;
    relies = h.sound.relies;
    known = known;
  };
}

Part-IsSafe :
    (s t : Threads) (gone gone' : List ℕ) → Part s gone t gone' → IsSafe s gone → IsSafe t gone'
Part-IsSafe s _ gone _ (accepts a t at place e) h = accepts-IsSafe s gone a t at e h
Part-IsSafe s _ gone _ (enters fd a place) h = enters-IsSafe s gone fd a place h
Part-IsSafe s _ gone _ (registers fd a place) h = registers-IsSafe s gone fd a place h
Part-IsSafe s _ gone _ (reports es place watched) h =
    moves_on s gone (handling es)
      (reported (address_at s.server.clients) gone s.server.reactor es h.sound.registered watched) h
Part-IsSafe s _ gone _ (receives e es place) h = receives-IsSafe s gone e es place h
Part-IsSafe s _ gone _ (routes e es t tq tq' place run) h =
    let (same, reactor, ordered) = route-same s.server t tq tq' e run in
    let known =
      subst (λ v. All (λ x. IsKnown (address_at s.server.clients) gone x.sockfd) (left v)) place
        h.sound.known in
    same-IsSafe (record s { events = handling es }) gone t same reactor ordered
      (moves_on s gone (handling es) known.1 h)
Part-IsSafe s _ gone _ (ends place) h = moves_on s gone waiting tt h
Part-IsSafe s _ gone _ (beats t e) h =
    same-IsSafe s gone t (λ k. heart_beat-addresses s.server t k e) (beat-reactor s.server t e)
      (heart_beat-Ascending s.server t e) h
Part-IsSafe s _ gone _ (removes fd t removed e) h = removes-IsSafe s gone fd t removed e h

pub Runs-IsSafe : {s t : Threads} {gone : List ℕ} → Runs s t gone → IsSafe s [] → IsSafe t gone
Runs-IsSafe at_start h = h
Runs-IsSafe (after {t = t} {u = u} {gone = g} {gone' = g'} r part) h =
    Part-IsSafe t u g g' part (Runs-IsSafe r h)
