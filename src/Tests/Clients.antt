-- ===== src/Tests/Clients.antt =====
-- Runs of the two clients, with floats counted in thousandths.
use dometic_ddmp.Base.{
  ℤ, pos, ◌≡◌, refl, ap, true, none, some, [], ◌∷◌, ◌++◌, ◌∙◌, length, map, arith, string_eq,
}
use dometic_ddmp.Bytes.{Bytes}
use dometic_ddmp.Result.{ok, os_error}
use dometic_ddmp.Text.{codes}
use dometic_ddmp.Action
use dometic_ddmp.Frame
use dometic_ddmp.Frame.{Frame, IsByteFrame}
use dometic_ddmp.Base64
use dometic_ddmp.Address
use dometic_ddmp.Topic.{by_name}
use dometic_ddmp.Value.{one, float}
use dometic_ddmp.Value.Milli.{thousandths, thousandths_laws}
use dometic_ddmp.Session
use dometic_ddmp.Session.{set_frame, on_frame, on_frames, on_publish}
use dometic_ddmp.AsyncClient
use dometic_ddmp.AsyncClient.{
  AsyncClient, running, ended, result, done, future_at, start_set, receive, end_reading, fail_all,
}
use dometic_ddmp.AsyncClient.Steps.{Step, breaks, starts, Reach, start, later}
use dometic_ddmp.AsyncClient.Settled.{asked, Step-Keeps}
use dometic_ddmp.AsyncClient.Invariant.{AreSound}
use dometic_ddmp.AsyncClient.Shut.{AreDone}
use dometic_ddmp.AsyncClient.Reachable.{Reach-AreSound, Reach-ended_settles}
use dometic_ddmp.AsyncClient.Confirmed.{start_set_sends}
use dometic_ddmp.AsyncClient.Answered.{IsSettled, start_set-receive_answers}
use dometic_ddmp.SyncClient
use dometic_ddmp.SyncClient.{
  SyncClient, polling, finished, leaving, event, open_connection, recv_returns, recv_fails, finish,
}
use dometic_ddmp.SyncClient.Threads
use dometic_ddmp.SyncClient.Faithful.{undelivered, farewell, IsOver}
use dometic_ddmp.SyncClient.Callbacks.{Reach-tells}
use dometic_ddmp.Tests.Cooler.{
  session, warmer, write_of_warmer, session-IsConsistent, session-IsPending, no_topic,
}
use dometic_ddmp.Tests.Commands.{warmer_line, warmer_encoded}

abbrev asking : AsyncClient ℤ
asking = (start_set (AsyncClient.init session) (by_name "csettemp") (one (float (pos 3500))) none).0

asking_is : asking ≡ record (asked (AsyncClient.init session) warmer.1) {
  written = (AsyncClient.init session).written ++ warmer_line;
}
unfolding AsyncClient.init
asking_is =
    ap (λ r. r.0)
      (start_set_sends (AsyncClient.init session) (by_name "csettemp") (one (float (pos 3500))) none
        warmer.0 warmer.1 warmer_line refl write_of_warmer warmer_encoded)

asking_runs : asking.reader ≡ running
unfolding AsyncClient.init
asking_runs = ap (λ c. c.reader) asking_is

asking_session : asking.session ≡ session
unfolding AsyncClient.init
asking_session = ap (λ c. c.session) asking_is

abbrev lost : AsyncClient ℤ
lost = end_reading (some os_error) asking

run_to_asking : Reach session asking
run_to_asking = later start (starts (by_name "csettemp") (one (float (pos 3500))) none)

run_to_lost : Reach session lost
run_to_lost = later run_to_asking (breaks os_error asking_runs)

Reach-AreSound_example : AreSound asking.pending asking.futures
Reach-AreSound_example = Reach-AreSound run_to_asking

lost_ended : lost.reader ≡ ended
unfolding end_reading
lost_ended = refl

Reach-ended_settles_example : (lost.closed ≡ true) × AreDone lost.pending lost.futures
Reach-ended_settles_example = Reach-ended_settles run_to_lost lost_ended

-- A client whose first write has had its answer.
abbrev answered : AsyncClient ℤ
answered = record (AsyncClient.init session) { futures = result none ∷ [] }

asked_again :
    Step answered (start_set answered (by_name "csettemp") (one (float (pos 3500))) none).0
asked_again = starts (by_name "csettemp") (one (float (pos 3500))) none

Step-Keeps_example :
    future_at (start_set answered (by_name "csettemp") (one (float (pos 3500))) none).0.futures 0
    ≡ future_at answered.futures 0
Step-Keeps_example = Step-Keeps asked_again 0 refl

abbrev echo : Bytes
echo = codes "AUAABqsDQAAsLn//w==\r"

echo_encoded :
    Frame.encode_line (record warmer.0 { action = Action.code Action.publish }) ≡ ok (b'E' ∷ echo)
unfolding Frame.encode_line Frame.encode Address.to_bytes Base64.encode
echo_encoded = refl

echo_plain : IsByteFrame (record warmer.0 { action = Action.code Action.publish })
echo_plain = omega arith

nothing_held : session.decoder.buf ≡ []
unfolding on_frames on_frame on_publish Session.init
nothing_held = refl

asking_holds_nothing : asking.session.decoder.buf ≡ []
asking_holds_nothing = ap (λ s. s.decoder.buf) asking_session ∙ nothing_held

-- The same write again, while the first one is still pending.
start_set-receive_answers_example :
    (start_set asking (by_name "csettemp") (one (float (pos 3500))) none ≡ (
      record (asked asking warmer.1) { written = asking.written ++ warmer_line },
      ok (length asking.futures),
    ))
    × IsSettled (length asking.futures) (
        receive
          (b'E' ∷ echo)
          (start_set asking (by_name "csettemp") (one (float (pos 3500))) none).0)
start_set-receive_answers_example =
    start_set-receive_answers thousandths_laws (by_name "csettemp") (one (float (pos 3500))) none
      warmer.0 warmer.1 warmer_line b'E' echo run_to_asking session-IsConsistent no_topic
      asking_holds_nothing asking_runs
      (ap (λ s. set_frame s (by_name "csettemp") (one (float (pos 3500))) none) asking_session
        ∙ write_of_warmer)
      warmer_encoded echo_plain echo_encoded

-- The blocking client reads a line, tells its event, and loses the connection.
abbrev idle_client : SyncClient ℤ
idle_client = SyncClient.init session true true

abbrev opened : SyncClient ℤ
opened = record idle_client { has_sock = true; reader = polling }

abbrev line : Bytes
line = codes "EAUAABrQBwAA\r"

abbrev heard : SyncClient ℤ
heard = recv_returns line opened

opens_lem : open_connection idle_client ≡ ok opened
unfolding open_connection SyncClient.init
opens_lem = refl

sync_run : Threads.Reach idle_client ([] ++ [] ++ line) heard
sync_run =
    Threads.later (Threads.later Threads.start (Threads.opens opened opens_lem))
      (Threads.returns line refl)

Reach-tells_example :
    (heard.calls ++ map event (undelivered heard.reader)
      ≡ map event (Session.feed session ([] ++ [] ++ line)).0
        ++ farewell heard.reader heard.close_reason)
    × (heard.session ≡ (Session.feed session ([] ++ [] ++ line)).1)
    × IsOver heard.reader heard.closed
Reach-tells_example = Reach-tells session session-IsPending sync_run
