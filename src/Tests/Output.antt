-- ===== src/Tests/Output.antt =====
-- What `watch` prints of a stream of one line, and what a confirmed write prints.
use dometic_ddmp.Base.{ℕ, ℤ, pos, ◌≡◌, refl, true, some, [], ◌∷◌, ◌++◌}
use dometic_ddmp.Bytes.{Bytes}
use dometic_ddmp.Result.{ok, os_error}
use dometic_ddmp.Text.{Text, codes}
use dometic_ddmp.Base.Dict
use dometic_ddmp.Base.Index
use dometic_ddmp.Base64
use dometic_ddmp.Bytes.{is_space}
use dometic_ddmp.LineDecoder
use dometic_ddmp.Frame
use dometic_ddmp.Address
use dometic_ddmp.Address.{address, address_eq}
use dometic_ddmp.Base.{string_eq}
use dometic_ddmp.Codec.{decode}
use dometic_ddmp.Words.{i32s, word}
use dometic_ddmp.Topic.{topics, topic_by_address}
use dometic_ddmp.Value.{Value, many, atom, float}
use dometic_ddmp.Value.Milli.{thousandths}
use dometic_ddmp.Expectation.{Event, publish, close}
use dometic_ddmp.Session
use dometic_ddmp.SyncClient
use dometic_ddmp.SyncClient.{
  SyncClient, polling, delivering, leaving, open_connection, recv_returns, recv_fails, call_event,
  finish,
}
use dometic_ddmp.SyncClient.Threads
use dometic_ddmp.Cli.Print.{out, Format, fmt_value, poll_output, hex}
use dometic_ddmp.Cli.Confirmed.{poll_output_confirmed}
use dometic_ddmp.Tests.Cooler.{warmer, csettemp}
use dometic_ddmp.Tests.Commands.{rounds, warmer_polled}

-- A format that says nothing of a value.
abbrev plain : Format ℤ
plain = record {
  repr = λ v. codes "?";
  repr_bytes = λ raw. hex raw;
  str_error = λ x. codes "lost";
  dumps = λ fields. codes "{}";
}

abbrev watching : SyncClient ℤ
watching = SyncClient.init (Session.init ℤ) true true

abbrev connected : SyncClient ℤ
connected = record watching { has_sock = true; reader = polling }

connects : open_connection watching ≡ ok connected
unfolding open_connection SyncClient.init
connects = refl

abbrev line : Bytes
line = codes "EAUAABrQBwAA\r"

abbrev heard : SyncClient ℤ
heard = recv_returns line connected

-- The set-point of one compartment, 2 degrees.
abbrev set_point : Event ℤ
set_point = publish (record {
  address = address 0x05 0 0 0x1a;
  topic = some csettemp;
  value = many (atom (float (pos 2000)) ∷ []);
  raw = 0xd0 ∷ 0x07 ∷ 0 ∷ 0 ∷ [];
})

heard_delivers : heard.reader ≡ delivering (set_point ∷ [])
unfolding recv_returns Session.feed LineDecoder.feed LineDecoder.cut LineDecoder.read_line
    LineDecoder.read_stripped LineDecoder.frames_of LineDecoder.drops_of is_space Base64.decode
    Frame.decode Address.from_bytes Session.on_frames Session.on_frame Session.on_publish
    Session.decoded Session.init decode i32s word topic_by_address topics Index.index Dict.get
    Dict.put SyncClient.init
heard_delivers = refl

abbrev told : SyncClient ℤ
told = record (call_event set_point [] heard) { reader = polling }

told_delivers : (call_event set_point [] heard).reader ≡ delivering []
unfolding call_event
told_delivers = refl

told_polls : told.reader ≡ polling
told_polls = refl

abbrev lost : SyncClient ℤ
lost = recv_fails os_error told

lost_leaves : lost.reader ≡ leaving (some os_error)
unfolding recv_fails call_event recv_returns SyncClient.init
lost_leaves = refl

abbrev over : SyncClient ℤ
over = finish (some os_error) lost

run : Threads.Reach watching ([] ++ [] ++ line ++ [] ++ [] ++ [] ++ []) over
run =
    Threads.later
      (Threads.later
        (Threads.later
          (Threads.later
            (Threads.later (Threads.later Threads.start (Threads.opens connected connects))
              (Threads.returns line refl))
            (Threads.calls set_point [] heard_delivers))
          (Threads.calls_no_more told_delivers))
        (Threads.fails os_error told_polls))
      (Threads.finishes (some os_error) lost_leaves)

abbrev at_noon : ℕ → Text
at_noon i = codes "12:00:00"

poll_output_confirmed_example :
    (w : Value ℤ) × (close w warmer.1.expected warmer.1.tolerance ≡ ok true)
    × (poll_output plain (codes "csettemp") (codes "10.0") warmer.1 rounds
        ≡ out (codes "confirmed: " ++ codes "csettemp" ++ codes " = " ++ fmt_value plain w) ∷ [])
poll_output_confirmed_example =
    poll_output_confirmed plain (codes "csettemp") (codes "10.0") warmer.1 rounds warmer_polled
