-- ===== src/Kubeclient/Attach.antt =====
-- api/client/kubeclient/sandbox.go: attaching to a sandbox, with a timeout or without.
use sandbox_mommy.Base.{ℕ, String, Bool, true, false, Option, none, some, [], if◌then◌else◌}
use sandbox_mommy.Base.Int.{ℤ, pos, eqb, eqb_ℤ, ltb_ℤ}
use sandbox_mommy.Loop.{Step, again, leave, loop}
use sandbox_mommy.Exec.{message}
use sandbox_mommy.Kubeclient.Request.{
  Net, AttachError, async_error, plain, Connected, async_subresource_helper,
}

-- `subv1alpha1.Attach`, the options.
pub record AttachOptions : Type 0 where
  pub connection_timeout : ℤ

-- The `sandbox` of the client library, without the interfaces that it passes on.
pub record SandboxClient : Type 0 where
  pub host : String
  pub resource : String
  pub namespace : String

-- Go's package time, over the world: a new ticker, a look at whether it has ticked, and a sleep of
-- a second.
pub record Timer (W : Type 0) : Type 0 where
  pub new_ticker : ℤ → W → W
  pub ticked : W → Bool × W
  pub sleep : W → W

-- `Attach` answers, or panics: `NewTicker` does where the duration is not positive.
pub data Attached (C : Type 0) : Type 0 where
  answered : Option C × Option AttachError → Attached C
  panics : Attached C

abbrev pub status_bad_request : ℕ
status_bad_request = 400

-- Whether the error is one to try again after.
abbrev pub is_bad_request : Option AttachError → Bool
is_bad_request none = false
is_bad_request (some (async_error text code)) = eqb code status_bad_request
is_bad_request (some (plain e)) = false

module _ {C W : Type 0} (E : Net C W) (T : Timer W) (s : SandboxClient) (name : String) where
  abbrev pub AttachRound : Type 0
  AttachRound = Step W (Connected E × W)

  abbrev pub try_once : W → Connected E × W
  try_once w = async_subresource_helper E s.host s.resource s.namespace name "attach" [] w

  abbrev pub tried : Connected E × W → AttachRound
  tried ((con, e), w) = if is_bad_request e then again (T.sleep w) else leave ((con, e), w)

  -- The `select` on the ticker.
  abbrev pub polled : Bool × W → AttachRound
  polled (true, w) = leave (
    (none, some (plain (message "timeout trying to connect to the virtual machine instance" []))),
    w,
  )
  polled (false, w) = tried (try_once w)

  abbrev pub attach_round : W → AttachRound
  attach_round w = polled (T.ticked w)

  abbrev pub answer : Option (Connected E × W) → Option (Attached C × W)
  answer none = none
  answer (some (con, w)) = some (answered con, w)

  abbrev pub attach_within : ℕ → ℤ → W → Option (Attached C × W)
  attach_within fuel timeout w =
      if eqb_ℤ timeout (pos 0)
      then answer (some (try_once w))
      else if ltb_ℤ timeout (pos 0)
      then some (panics, w)
      else answer (loop attach_round fuel (T.new_ticker timeout w))

  abbrev pub attach : ℕ → Option AttachOptions → W → Option (Attached C × W)
  attach fuel none w = answer (some (try_once w))
  attach fuel (some options) w = attach_within fuel options.connection_timeout w
