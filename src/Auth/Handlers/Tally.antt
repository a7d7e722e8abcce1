-- ===== src/Auth/Handlers/Tally.antt =====
-- handlers.go: each part of a request keeps the tally of a client's comparisons.
use mathlib.Core.Path.{subst}
use smotryashchiy.Base.{
  ℕ, ◌+◌, ◌≤◌, ◌<◌, ◌≡◌, refl, sym, ap, ◌∙◌, Bool, true, false, not, ◌||◌, List, ◌∷◌, Option, none,
  some, arith, Bytes, bytes_eq, bytes_eq_iff, bytes_key, ltb, leb, length, every, Bool-cases, inl,
  inr,
}
use smotryashchiy.Assoc.{lookup}
use smotryashchiy.Sorting.{Sorter}
use smotryashchiy.Auth.LoginLimiter.{
  LoginAttempt, login_failure_window, max_login_clients, failure, success,
}
use smotryashchiy.Auth.Service.{
  Bcrypt, Service, Settings, Result, ok, err, matches, login, verify_password,
}
use smotryashchiy.Auth.Handlers.{Handlers, look, is_invalid_credentials}
use smotryashchiy.Auth.Handlers.Requests.{
  Stage, login_waits, step_up_waits, login_checked, step_up_checked, Flight, World, Move,
  login_comes, step_up_comes, goes, let_through, taken, go, gone_on, move,
}
use smotryashchiy.Auth.Handlers.Counting.{
  recorded, lasts, is_own, waits, in_flight, to_compare, comparisons, Splits, Taken, taken-Taken,
  look_any, failure_others, failure_own, success_others, time_of, fits,
}

module _ (bcrypt : Bcrypt) (sorter : Sorter Bytes) (client : Bytes) (hash : Option Bytes) where
  abbrev is_refused : {A : Type 0} → Result A → Bool
  is_refused (ok a) = false
  is_refused (err e) = is_invalid_credentials e

  abbrev pub is_wrong : Stage → Bool
  is_wrong (login_waits p t) = not (matches bcrypt hash p)
  is_wrong (step_up_waits p) = not (matches bcrypt hash p)
  is_wrong (login_checked r) = is_refused r
  is_wrong (step_up_checked r) = is_refused r

  abbrev pub flight_ok : Flight → Bool
  flight_ok r = not (bytes_eq r.client client) || is_wrong r.stage

  -- The client's guesses are wrong.
  abbrev pub guess_ok : Move → Bool
  guess_ok (login_comes c none token t) = true
  guess_ok (login_comes c (some p) token t) = not (bytes_eq c client) || not (matches bcrypt hash p)
  guess_ok (step_up_comes c p t) = not (bytes_eq c client) || not (matches bcrypt hash p)
  guess_ok (goes i t) = true

  abbrev found : World → Option LoginAttempt
  found w = lookup client w.handlers.attempts

  -- What holds before `end`: the comparisons made and to be made are those that the limiter let through,
  -- which have failed or are in flight.
  pub record Inv (k end : ℕ) (w : World) : Type 0 where
    pub readable : w.handlers.service.store.readable ≡ true
    pub hashed : w.handlers.service.store.admin_hash ≡ hash
    pub tally :
        comparisons client w.compared + to_compare client w.flights
        ≡ recorded (found w) + in_flight client w.flights
    pub few : recorded (found w) + in_flight client w.flights ≤ 4 + k
    pub wrong : every flight_ok w.flights ≡ true
    pub lasting : lasts end (found w) ≡ true

  -- A login leaves the settings alone, and a wrong one is refused.
  login_keeps :
      (s : Service) (p : Bytes) (token : Option Bytes) (now : ℕ)
      → s.store.readable ≡ true
      → ((login bcrypt s p token now).0.store ≡ s.store)
        × (is_refused (login bcrypt s p token now).1 ≡ not (matches bcrypt s.store.admin_hash p))
  unfolding login
  login_keeps s p none now r = ground arith
  login_keeps s p (some t) now r = ground arith

  verify_refuses :
      (s : Service) (p : Bytes)
      → s.store.readable ≡ true
      → is_refused (verify_password bcrypt s p) ≡ not (matches bcrypt s.store.admin_hash p)
  unfolding verify_password
  verify_refuses s p r = ground arith

  abbrev StageOk : Bytes → Option Stage → Type 0
  StageOk c none = Unit
  StageOk c (some s) =
      (waits client s ≡ true) × (flight_ok (record { client = c; stage = s }) ≡ true)

  through-Inv :
      (k end : ℕ) (w : World) (c : Bytes) (st : Option Stage) (h : Handlers) (o : Option ℕ)
      → h.service ≡ w.handlers.service
      → lookup client h.attempts ≡ found w
      → (bytes_eq c client ≡ true → o ≡ none → recorded (found w) < 5)
      → StageOk c st
      → leb (in_flight client (let_through w c st (h, o)).flights) k ≡ true
      → Inv k end w
      → Inv k end (let_through w c st (h, o))
  through-Inv k end w c st h (some d) s f low good room v = record {
    readable = ground (arith, s, v.readable);
    hashed = ap (λ (x : Service). x.store.admin_hash) s ∙ v.hashed;
    tally = ground (arith, f, v.tally);
    few = ground (arith, f, v.few);
    wrong = v.wrong;
    lasting = ap (lasts end) f ∙ v.lasting;
  }
  through-Inv k end w c none h none s f low good room v = record {
    readable = ground (arith, s, v.readable);
    hashed = ap (λ (x : Service). x.store.admin_hash) s ∙ v.hashed;
    tally = ground (arith, f, v.tally);
    few = ground (arith, f, v.few);
    wrong = v.wrong;
    lasting = ap (lasts end) f ∙ v.lasting;
  }
  through-Inv k end w c (some st) h none s f low good room v = record {
    readable = ground (arith, s, v.readable);
    hashed = ap (λ (x : Service). x.store.admin_hash) s ∙ v.hashed;
    tally = ground (arith, f, v.tally, good);
    few = ground (arith, f, v.few, low, room);
    wrong = ground (arith, v.wrong, good);
    lasting = ap (lasts end) f ∙ v.lasting;
  }

  -- The request has failed or succeeded, and its result is counted.
  counted-Inv :
      (k end : ℕ) (w : World) (r : Flight) (others : List Flight) (h : Handlers)
      → Splits client flight_ok w.flights r others
      → waits client r.stage ≡ false
      → h.service ≡ w.handlers.service
      → (is_own client r ≡ false → lookup client h.attempts ≡ found w)
      → (is_own client r ≡ true
          → (recorded (lookup client h.attempts) ≡ recorded (found w) + 1)
            × (lasts end (lookup client h.attempts) ≡ true))
      → Inv k end w
      → Inv k end (record w { handlers = h; flights = others })
  counted-Inv k end w r others h split done same f g v = elim (Bool-cases (is_own client r)) [
    | inr e ↦ record {
      readable = ap (λ (x : Service). x.store.readable) same ∙ v.readable;
      hashed = ap (λ (x : Service). x.store.admin_hash) same ∙ v.hashed;
      tally = ground (arith, e, done, f e, v.tally, split.own, split.comparing);
      few = ground (arith, e, f e, v.few, split.own);
      wrong = ground (arith, v.wrong, split.each);
      lasting = ap (lasts end) (f e) ∙ v.lasting;
    }
    | inl e ↦ record {
      readable = ap (λ (x : Service). x.store.readable) same ∙ v.readable;
      hashed = ap (λ (x : Service). x.store.admin_hash) same ∙ v.hashed;
      tally = ground (arith, e, done, (g e).0, v.tally, split.own, split.comparing);
      few = ground (arith, e, (g e).0, v.few, split.own);
      wrong = ground (arith, v.wrong, split.each);
      lasting = (g e).1;
    }
  ]

  -- The password of a request is compared.
  compared-Inv :
      (k end : ℕ) (w : World) (r : Flight) (others : List Flight) (service : Service)
      (stage : Stage)
      → Splits client flight_ok w.flights r others
      → waits client r.stage ≡ true
      → waits client stage ≡ false
      → service.store ≡ w.handlers.service.store
      → (is_own client r ≡ true → is_wrong r.stage ≡ true → is_wrong stage ≡ true)
      → Inv k end w
      → Inv k end (record {
        handlers = record w.handlers { service = service };
        flights = record { client = r.client; stage = stage } ∷ others;
        compared = r.client ∷ w.compared;
      })
  compared-Inv k end w r others service stage split before after same f v = record {
    readable = ap (λ (x : Settings). x.readable) same ∙ v.readable;
    hashed = ap (λ (x : Settings). x.admin_hash) same ∙ v.hashed;
    tally = ground (arith, before, after, v.tally, split.own, split.comparing);
    few = ground (arith, v.few, split.own);
    wrong = ground (arith, v.wrong, split.each, f);
    lasting = v.lasting;
  }

  module _ (k end now : ℕ) (soon : now < end) (window : end ≤ now + login_failure_window) where
    -- A failure counted for the request's client.
    failed-Inv :
        (w : World) (r : Flight) (others : List Flight)
        → Splits client flight_ok w.flights r others
        → waits client r.stage ≡ false
        → ltb (length w.handlers.attempts) max_login_clients ≡ true
        → Inv k end w
        → Inv k end (record w {
          handlers = record w.handlers {
            attempts = failure sorter w.handlers.attempts r.client now;
          };
          flights = others;
        })
    failed-Inv w r others split done room v =
        counted-Inv k end w r others
          (record w.handlers { attempts = failure sorter w.handlers.attempts r.client now }) split
          done refl (λ e. failure_others client sorter w.handlers.attempts r.client now e room)
          (λ e.
            subst
              (λ (x : Bytes).
                (recorded (lookup client (failure sorter w.handlers.attempts x now))
                  ≡ recorded (found w) + 1)
                × (lasts end (lookup client (failure sorter w.handlers.attempts x now)) ≡ true))
              (sym ((bytes_eq_iff r.client client).0 e))
              (failure_own client sorter w.handlers.attempts now end soon window v.lasting))
          v

    -- A request whose result is not counted is another client's.
    other-Inv :
        (w : World) (r : Flight) (others : List Flight) (h : Handlers)
        → Splits client flight_ok w.flights r others
        → waits client r.stage ≡ false
        → h.service ≡ w.handlers.service
        → is_wrong r.stage ≡ false
        → (is_own client r ≡ false → lookup client h.attempts ≡ found w)
        → Inv k end w
        → Inv k end (record w { handlers = h; flights = others })
    other-Inv w r others h split done same right f v =
        counted-Inv k end w r others h split done same f
          (λ e. absurd (ground (arith, e, right, v.wrong, split.each))) v

    go-Inv :
        (w : World) (c : Bytes) (stage : Stage) (others : List Flight)
        → Splits client flight_ok w.flights (record { client = c; stage = stage }) others
        → ltb (length w.handlers.attempts) max_login_clients ≡ true
        → Inv k end w
        → Inv k end (go bcrypt sorter w others c stage now)
    go-Inv w c (login_waits p token) others split room v =
        let keeps = login_keeps w.handlers.service p token now v.readable in
        compared-Inv k end w (record { client = c; stage = login_waits p token }) others
          (login bcrypt w.handlers.service p token now).0
          (login_checked (login bcrypt w.handlers.service p token now).1) split refl refl keeps.0
          (λ own wrong.
            keeps.1 ∙ ap (λ (x : Option Bytes). not (matches bcrypt x p)) v.hashed ∙ wrong)
          v
    go-Inv w c (step_up_waits p) others split room v =
        compared-Inv k end w (record { client = c; stage = step_up_waits p }) others
          w.handlers.service (step_up_checked (verify_password bcrypt w.handlers.service p)) split
          refl refl refl
          (λ own wrong.
            verify_refuses w.handlers.service p v.readable
            ∙ ap (λ (x : Option Bytes). not (matches bcrypt x p)) v.hashed
            ∙ wrong)
          v
    go-Inv w c (login_checked (ok session)) others split room v =
        other-Inv w (record { client = c; stage = login_checked (ok session) }) others
          (record w.handlers { attempts = success w.handlers.attempts c }) split refl refl refl
          (λ e. success_others client w.handlers.attempts c e) v
    go-Inv w c (login_checked (err x)) others split room v =
        elim (Bool-cases (is_invalid_credentials x)) [
          | inl e ↦ rw e (
              failed-Inv w (record { client = c; stage = login_checked (err x) }) others split refl
                room v)
          | inr e ↦ rw e (
              other-Inv w (record { client = c; stage = login_checked (err x) }) others w.handlers
                split refl refl e (λ u. refl) v)
        ]
    go-Inv w c (step_up_checked (ok u)) others split room v =
        other-Inv w (record { client = c; stage = step_up_checked (ok u) }) others
          (record w.handlers { attempts = success w.handlers.attempts c }) split refl refl refl
          (λ e. success_others client w.handlers.attempts c e) v
    go-Inv w c (step_up_checked (err x)) others split room v =
        elim (Bool-cases (is_invalid_credentials x)) [
          | inl e ↦ rw e (
              failed-Inv w (record { client = c; stage = step_up_checked (err x) }) others split
                refl room v)
          | inr e ↦ rw e (
              other-Inv w (record { client = c; stage = step_up_checked (err x) }) others w.handlers
                split refl refl e (λ u. refl) v)
        ]

    gone_on-Inv :
        (w : World) (at : Option (Flight × List Flight))
        → Taken client flight_ok w.flights at
        → ltb (length w.handlers.attempts) max_login_clients ≡ true
        → Inv k end w
        → Inv k end (gone_on bcrypt sorter w at now)
    gone_on-Inv w none split room v = v
    gone_on-Inv w (some (r, others)) split room v = go-Inv w r.client r.stage others split room v

    came-Inv :
        (w : World) (c : Bytes) (st : Option Stage)
        → StageOk c st
        → leb (in_flight client (let_through w c st (look w.handlers c now)).flights) k ≡ true
        → Inv k end w
        → Inv k end (let_through w c st (look w.handlers c now))
    came-Inv w c st good room v =
        let seen = look_any client w.handlers.attempts c now end soon v.lasting in
        through-Inv k end w c st (look w.handlers c now).0 (look w.handlers c now).1 refl seen.0
          seen.1 good room v

    pub move-Inv :
        (m : Move) (w : World)
        → time_of m ≡ now
        → guess_ok m ≡ true
        → fits client k w ≡ true
        → fits client k (move bcrypt sorter m w) ≡ true
        → Inv k end w
        → Inv k end (move bcrypt sorter m w)
    unfolding move
    move-Inv (login_comes c none token t) w e g room later v =
        subst (λ x. Inv k end (let_through w c none (look w.handlers c x))) (sym e)
          (came-Inv w c none tt (ground (arith, room)) v)
    move-Inv (login_comes c (some p) token t) w e g room later v =
        subst (λ x. Inv k end (let_through w c (some (login_waits p token)) (look w.handlers c x)))
          (sym e) (came-Inv w c (some (login_waits p token)) (refl, g) (ground (arith, later, e)) v)
    move-Inv (step_up_comes c p t) w e g room later v =
        subst (λ x. Inv k end (let_through w c (some (step_up_waits p)) (look w.handlers c x)))
          (sym e) (came-Inv w c (some (step_up_waits p)) (refl, g) (ground (arith, later, e)) v)
    move-Inv (goes i t) w e g room later v =
        subst (λ x. Inv k end (gone_on bcrypt sorter w (taken i w.flights) x)) (sym e)
          (gone_on-Inv w (taken i w.flights) (taken-Taken client flight_ok i w.flights)
            (ground (arith, room)) v)
