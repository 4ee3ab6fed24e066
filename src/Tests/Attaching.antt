-- ===== src/Tests/Attaching.antt =====
-- A clock, a dialer and a terminal in memory, and the theorems on attaching at them.
use sandbox_mommy.Base.{
  string_eq, ℕ, zero, suc, ◌+◌, ◌<◌, ◌≤◌, ◌≡◌, refl, String, true, false, Option, none, some, [],
  arith,
}
use sandbox_mommy.Base.Int.{pos, leb, pos_part}
use sandbox_mommy.Exec.{message, ok, err}
use sandbox_mommy.Kubeclient.Request.{
  Net, Response, Url, refused, AttachError, async_error, async_subresource_helper,
}
use sandbox_mommy.Kubeclient.Attach.{SandboxClient, Timer, answered, is_bad_request, attach}
use sandbox_mommy.Kubeclient.Attempts.{
  Clock, second, attach_ends, async_subresource_helper-Reported,
}
use sandbox_mommy.Cli.Console.{Terminal, ConsoleError, failed, stream_ended, connect, run}
use sandbox_mommy.Cli.Sessions.{Excused, run_ends, run_reconnects}

record Moment : Type 0 where
  now : ℕ
  due : ℕ

abbrev bad_request : Response
bad_request = record {
  status_code = 400;
  status = "400 Bad Request";
  content_type = "text/plain";
  body = ok "";
}

abbrev host_url : Url
host_url = record { scheme = "https"; host = "api"; path = ""; raw_query = "" }

-- A server that refuses every request as a bad one.
abbrev refusing : Net (Unit {0}) Moment
refusing = record {
  parse = λ s. ok host_url;
  join_paths = λ p q. q;
  encode = λ v. "";
  unmarshal = λ s. err (message "not a status" []);
  from_object = λ s. message "" [];
  decimal = λ n. "";
  error_text = λ e. "refused";
  dial = λ req w. (refused (some bad_request) (message "bad handshake" []), w);
  tls_config = none;
  wrappers = λ trip. ok trip;
}

abbrev ticker : Timer Moment
ticker = record {
  new_ticker = λ d (w : Moment). record { now = w.now; due = w.now + pos_part d };
  ticked = λ (w : Moment). (leb w.due w.now, w);
  sleep = λ (w : Moment). record { now = w.now + second; due = w.due };
}

abbrev sandboxes : SandboxClient
sandboxes = record { host = "https://api"; resource = "sandboxes"; namespace = "default" }

abbrev start : Moment
start = record { now = 7; due = 0 }

due_ticks : (due now : ℕ) → due ≤ now → leb due now ≡ true
due_ticks due now h = ground arith

moment_clock : Clock refusing ticker sandboxes "box"
unfolding string_eq
moment_clock = record {
  now = λ (w : Moment). w.now;
  due = λ (w : Moment). w.due;
  starts = λ d w. (refl, refl);
  ticks = λ (w : Moment) h. due_ticks w.due w.now h;
  looks = λ w. (omega arith, refl);
  sleeps = λ w. (omega arith, refl);
  tries = λ w. (omega arith, refl);
}

attach_ends_example :
    (con : Option (Unit {0})) × (e : Option AttachError) × (v : Moment) × (attach refusing ticker
        sandboxes "box" 3
        (some (record { connection_timeout = pos 1500000000 }))
        start
      ≡ some (answered (con, e), v))
    × (is_bad_request e ≡ false)
attach_ends_example =
    attach_ends refusing ticker sandboxes "box" moment_clock 1500000000 2 start (omega arith)
      (omega arith)

async_subresource_helper-Reported_example :
    (text : String) × (async_subresource_helper refusing "https://api" "sandboxes" "default" "box"
        "attach" [] start
      ≡ ((none, some (async_error text 400)), start))
unfolding string_eq
async_subresource_helper-Reported_example =
    async_subresource_helper-Reported refusing "https://api" "sandboxes" "default" "box" "attach" []
      (record {
        method = "GET";
        url = record {
          scheme = "wss";
          host = "api";
          path = "/apis/subresources.sandbox.io/v1alpha1/namespaces/default/sandboxes/box/attach";
          raw_query = "";
        };
      })
      start refl (λ trip. refl) refl

-- A terminal with so many connections that end by themselves, and after them an error.
abbrev attach_left : ℕ → Option ConsoleError × ℕ
attach_left zero = (some (failed "connection refused"), 0)
attach_left (suc n) = (none, n)

abbrev terminal : Terminal ℕ
terminal = record {
  attach = attach_left;
  is_terminal = false;
  make_raw = λ w. (none, w);
  restore = λ w. w;
  print_out = λ text w. w;
  print_err = λ text w. w;
  first_event = λ w. (stream_ended none, w);
  interrupted = λ w. (true, w);
  sleep = λ w. w;
}

fewer_left : (w : ℕ) → (connect terminal "box" w).0 ≡ none → (connect terminal "box" w).1 < w
fewer_left zero h = absurd (grind arith)
fewer_left (suc n) h = omega arith

run_ends_example : (a : Option ConsoleError × ℕ) × (run terminal "box" 4 3 ≡ some a) × Excused a.0
run_ends_example = run_ends terminal "box" (λ w. w) (λ w. refl) fewer_left 4 3 (omega arith)

abbrev calm : Terminal (Unit {0})
calm = record {
  attach = λ w. (none, w);
  is_terminal = false;
  make_raw = λ w. (none, w);
  restore = λ w. w;
  print_out = λ text w. w;
  print_err = λ text w. w;
  first_event = λ w. (stream_ended none, w);
  interrupted = λ w. (true, w);
  sleep = λ w. w;
}

run_reconnects_example : run calm "box" 100 tt ≡ none
run_reconnects_example = run_reconnects calm "box" (λ w. refl) 100 tt
