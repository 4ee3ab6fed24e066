-- ===== src/Kubeclient/Attempts.antt =====
-- api/client/kubeclient/sandbox.go and async.go: the attempts to attach come to an end.
use sandbox_mommy.Base.{
  ℕ, zero, suc, ◌+◌, ◌*◌, ◌<◌, ◌≤◌, ◌≡◌, refl, ap, ◌∙◌, String, true, false, Option, none, some, [],
  ◌∷◌, Bool-cases, inl, inr, arith,
}
use sandbox_mommy.Base.Int.{pos, eqb}
use sandbox_mommy.Loop.{go_on, loop}
use sandbox_mommy.Exec.{message, ok}
use sandbox_mommy.Kubeclient.Request.{
  Values, Request, enrich_error, Dialed, dialed, refused, Trip, Net, AttachError, async_error,
  Connected, async_subresource_helper, make_request, status_code_of, selected, trip_of,
}
use sandbox_mommy.Kubeclient.Attach.{
  SandboxClient, Timer, answered, is_bad_request, try_once, tried, polled, attach_round, attach,
  attach_within, answer,
}

-- What a dial comes to, as `asyncSubresourceHelper` reports it: the connection, or an error that
-- carries the status code of the response.
abbrev pub Reported : {C W : Type 0} → Dialed C × W → (Option C × Option AttachError) × W → Type 0
Reported (dialed c resp, v) out = out ≡ ((some c, none), v)
Reported (refused resp e, v) out =
    (text : String) × (out ≡ ((none, some (async_error text (status_code_of resp))), v))

module _ {C W : Type 0} (E : Net C W) where
  trip-Reported : (d : Dialed C × W) → Reported d (selected E (trip_of E d))
  trip-Reported (dialed c resp, v) = refl
  trip-Reported (refused none e, v) = (_, refl)
  trip-Reported (refused (some resp) e, v) = elim (Bool-cases (eqb resp.status_code 200)) [
    | inl k ↦
        (E.error_text (message "Can't connect to websocket: %s\n" (E.error_text e ∷ [])), rw k refl)
    | inr k ↦ (E.error_text (enrich_error E e (some resp)), rw k refl)
  ]

  -- Where the round tripper and the request can be made, and nothing wraps the round tripper, the
  -- helper gives the connection that the dial opened, or an error that carries the status code of the
  -- response, zero where there was none.
  pub async_subresource_helper-Reported :
      (host resource namespace name subresource : String) (query : Values) (req : Request) (w : W)
      → E.tls_config ≡ none
      → ((trip : Request → W → Trip C × W) → E.wrappers trip ≡ ok trip)
      → make_request E host resource name namespace subresource query ≡ ok req
      → Reported
          (E.dial req w)
          (async_subresource_helper E host resource namespace name subresource query w)
  async_subresource_helper-Reported host resource namespace name subresource query req w tls bare
        made =
      rw (tls, bare _, made) (trip-Reported (E.dial req w))

-- The time in nanoseconds, and when a ticker ticks: a look, a sleep and an attempt do not turn the
-- clock back, and a sleep takes a second.
abbrev pub second : ℕ
second = 1000000000

module _ {C W : Type 0} (E : Net C W) (T : Timer W) (s : SandboxClient) (name : String) where
  pub record Clock : Type 0 where
    pub now : W → ℕ
    pub due : W → ℕ
    pub starts :
        (d : ℕ) (w : W)
        → (now (T.new_ticker (pos d) w) ≡ now w) × (due (T.new_ticker (pos d) w) ≡ now w + d)
    pub ticks : (w : W) → due w ≤ now w → (T.ticked w).0 ≡ true
    pub looks : (w : W) → (now w ≤ now (T.ticked w).1) × (due (T.ticked w).1 ≡ due w)
    pub sleeps : (w : W) → (now w + second ≤ now (T.sleep w)) × (due (T.sleep w) ≡ due w)
    pub tries :
        (w : W) → (now w ≤ now (try_once E T s name w).1) × (due (try_once E T s name w).1 ≡ due w)

  module _ (c : Clock) where
    abbrev Ended : ℕ → W → Type 0
    Ended fuel w =
        (con : Option C) × (e : Option AttachError) × (v : W) × (loop (attach_round E T s name) fuel
            w
          ≡ some ((con, e), v))
        × (is_bad_request e ≡ false)

    -- The three ways that a round goes.
    timed_out : (k : ℕ) (w : W) → (T.ticked w).0 ≡ true → Ended (suc k) w
    timed_out k w q = (
      _,
      _,
      _,
      ap (λ b. go_on (loop (attach_round E T s name) k) (polled E T s name (b, (T.ticked w).1))) q,
      refl,
    )

    attempt : W → Connected E × W
    attempt w = try_once E T s name (T.ticked w).1

    looked :
        (k : ℕ) (w : W)
        → (T.ticked w).0 ≡ false
        → loop (attach_round E T s name) (suc k) w
          ≡ go_on (loop (attach_round E T s name) k) (tried E T s name (attempt w))
    unfolding attempt
    looked k w q =
        ap (λ b. go_on (loop (attach_round E T s name) k) (polled E T s name (b, (T.ticked w).1))) q

    settled :
        (k : ℕ) (w : W)
        → (T.ticked w).0 ≡ false
        → is_bad_request (attempt w).0.1 ≡ false
        → Ended (suc k) w
    settled k w q bad =
        ((attempt w).0.0, (attempt w).0.1, (attempt w).1, looked k w q ∙ rw bad refl, bad)

    retried :
        (k : ℕ) (w : W)
        → (T.ticked w).0 ≡ false
        → is_bad_request (attempt w).0.1 ≡ true
        → loop (attach_round E T s name) (suc k) w
          ≡ loop (attach_round E T s name) k (T.sleep (attempt w).1)
    retried k w q bad = looked k w q ∙ rw bad refl

    -- After a round the ticker is due at the same time, and the clock is a second further.
    later :
        (w : W)
        → (c.now w + second ≤ c.now (T.sleep (attempt w).1))
          × (c.due (T.sleep (attempt w).1) ≡ c.due w)
    unfolding attempt
    later w =
        let (slept, same) = c.sleeps (attempt w).1 in
        let (went, kept) = c.tries (T.ticked w).1 in
        let (looked_at, held) = c.looks w in (omega arith, same ∙ kept ∙ held)

    ends : (k : ℕ) (w : W) → c.due w ≤ c.now w + k * second → Ended (suc k) w
    ends zero w h = timed_out zero w (c.ticks w (omega arith))
    ends (suc k) w h = elim (Bool-cases (T.ticked w).0) [
      | inl q ↦ timed_out (suc k) w q
      | inr q ↦ elim (Bool-cases (is_bad_request (attempt w).0.1)) [
        | inl bad ↦
            let (further, same) = later w in
            let (con, e, v, run, fine) = ends k (T.sleep (attempt w).1) (omega arith) in
            (con, e, v, retried (suc k) w q bad ∙ run, fine)
        | inr bad ↦ settled (suc k) w q bad
      ]
    ]

    within :
        (fuel timeout : ℕ) (w : W)
        → 0 < timeout
        → attach_within E T s name fuel (pos timeout) w
          ≡ answer E T s name (loop (attach_round E T s name) fuel (T.new_ticker (pos timeout) w))
    within fuel timeout w h = ground arith

    -- `Attach` with a timeout ends: one round more than the timeout has seconds is enough, and what it answers is
    -- not a bad request, after which it would try again.
    pub attach_ends :
        (timeout k : ℕ) (w : W)
        → 0 < timeout
        → timeout ≤ k * second
        → (con : Option C) × (e : Option AttachError) × (v : W) × (attach E T s name
              (suc k)
              (some (record { connection_timeout = pos timeout }))
              w
            ≡ some (answered (con, e), v))
          × (is_bad_request e ≡ false)
    attach_ends timeout k w some_time enough =
        let (same, due) = c.starts timeout w in
        let (con, e, v, run, fine) = ends k (T.new_ticker (pos timeout) w) (omega arith) in
        (con, e, v, within (suc k) timeout w some_time ∙ ap (answer E T s name) run, fine)
