-- ===== src/Tests/Commands.antt =====
-- The commands of src/ddmp/__main__.py, with floats counted in thousandths.
use dometic_ddmp.Base.{
  ℤ, some, append-nil, pos, ◌≡◌, ◌≢◌, ◌≤◌, ◌⊎◌, refl, ap, ◌∙◌, true, false, none, List, [], ◌∷◌,
  map, string_eq,
}
use dometic_ddmp.Base.Dict
use dometic_ddmp.Base.Index
use dometic_ddmp.Bytes
use dometic_ddmp.Bytes.{Bytes}
use dometic_ddmp.Words.{i32s, word}
use dometic_ddmp.Codec.{decode}
use dometic_ddmp.Address
use dometic_ddmp.Result.{ok}
use dometic_ddmp.Text.{codes, lower}
use dometic_ddmp.Frame
use dometic_ddmp.Frame.{Frame}
use dometic_ddmp.Base64
use dometic_ddmp.Address.{address, address_beq}
use dometic_ddmp.Topic.{by_name, topics, topic_by_address}
use dometic_ddmp.Value.{one, float, float_atom}
use dometic_ddmp.Value.Milli.{thousandths, thousandths_laws}
use dometic_ddmp.Expectation.{
  Event, matches, close, close_all, close_item, close_atom, close_numbers,
}
use dometic_ddmp.Session.{subscribe_frames, init, on_frame, on_frames, on_publish, decoded}
use dometic_ddmp.SyncClient
use dometic_ddmp.Topic.Table.{subscribe_names}
use dometic_ddmp.SyncClient.{SyncClient, polling}
use dometic_ddmp.SyncClient.Burst.{
  AreSubscriptions, connect-lines, connect-subscribes, subscribe_frames-AreBytes,
}
use dometic_ddmp.LineDecoder
use dometic_ddmp.LineDecoder.Delivery.{encode_lines-total}
use dometic_ddmp.Cli.Echoed.{IsUndecided, write-echo_confirms}
use dometic_ddmp.Cli.{
  connect, write, WriteArgs, World, set_temp, run, main, judge_all, exit_code, poll, write_body,
}
use dometic_ddmp.Cli.Polling.{concat, verdict, first_decisive, code_of, poll-eq-first_decisive}
use dometic_ddmp.Cli.Writing.{Sent, write_body_sent, write_body_outcome}
use dometic_ddmp.Cli.Codes.{IsShut, main_tidy}
use dometic_ddmp.Tests.Cooler.{
  session-IsConsistent, no_topic, write_of_warmer, session, warmer, write_of_warmer, published,
}

-- An open client, with the session that has seen the set-points.
abbrev client : SyncClient ℤ
client = record (SyncClient.init session true true) { has_sock = true }

abbrev yes_args : WriteArgs
yes_args = record { compartment = none; yes = true }

-- First the old set-points, then the new ones.
abbrev pub rounds : List (List (Event ℤ))
rounds =
    []
    ∷ ((on_frame session published).0 ∷ [])
    ∷ ((on_frame session (record warmer.0 { action = 0x10 })).0 ∷ [])
    ∷ []

poll-eq-first_decisive_example :
    (poll warmer.1 rounds).1 ≡ code_of (first_decisive (map (verdict warmer.1) (concat rounds)))
poll-eq-first_decisive_example = poll-eq-first_decisive warmer.1 rounds

write_body_outcome_example :
    (((write_body yes_args (by_name "csettemp") (one (float (pos 3500))) rounds client).0 ≡ client)
      × ((write_body yes_args (by_name "csettemp") (one (float (pos 3500))) rounds client).1
          ≢ ok 0))
    ⊎ ((s : Sent yes_args
          (by_name "csettemp")
          (one (float (pos 3500)))
          client
          (write_body yes_args (by_name "csettemp") (one (float (pos 3500))) rounds client).0)
        × ((write_body yes_args (by_name "csettemp") (one (float (pos 3500))) rounds client).1
            ≡ code_of (first_decisive (map (verdict s.e) (concat rounds)))))
write_body_outcome_example =
    write_body_outcome yes_args (by_name "csettemp") (one (float (pos 3500))) rounds client

abbrev pub world : World ℤ
world = record {
  network = record { services = ok []; probe = λ ip port. ok []; broadcast_replies = ok [] };
  probe_all = λ ip port. ok [];
  reached = ok tt;
  waited = λ c. c;
  rounds = rounds;
  interrupted = false;
}

main_tidy_example :
    IsShut (run lower world (set_temp (pos 3500) yes_args)).client
    × (main lower world (set_temp (pos 3500) yes_args) ≤ 4)
main_tidy_example = main_tidy lower world (set_temp (pos 3500) yes_args)

abbrev pub warmer_line : Bytes
warmer_line = codes "EQUAABqsDQAAsLn//w==\r"

pub warmer_encoded : Frame.encode_line warmer.0 ≡ ok warmer_line
unfolding Frame.encode_line Frame.encode Address.to_bytes Base64.encode
warmer_encoded = refl

warmer_sent : SyncClient.send client warmer.0 ≡ ok (record client { written = warmer_line })
unfolding SyncClient.send SyncClient.init Frame.encode_line Frame.encode Address.to_bytes
    Base64.encode
warmer_sent = refl

pub warmer_polled : (poll warmer.1 rounds).1 ≡ ok 0
unfolding poll judge_all exit_code matches close close_all close_item close_atom close_numbers
    on_frame on_frames on_publish decoded init decode i32s word topic_by_address topics Index.index
    Dict.get Dict.put float_atom
warmer_polled = refl

written :
    write_body yes_args (by_name "csettemp") (one (float (pos 3500))) rounds client
    ≡ (record client { written = warmer_line }, (poll warmer.1 rounds).1)
unfolding SyncClient.init
written =
    write_body_sent yes_args (by_name "csettemp") (one (float (pos 3500))) rounds client
      (record client { written = warmer_line }) warmer.0 warmer.1 warmer_line write_of_warmer
      warmer_encoded refl warmer_sent

-- The run confirms.
confirmed :
    (write_body yes_args (by_name "csettemp") (one (float (pos 3500))) rounds client).1 ≡ ok 0
confirmed = ap (λ r. r.1) written ∙ warmer_polled

-- The client that the other threads leave after the pause.
abbrev echoing : World ℤ
echoing = record world { waited = λ c. client }

abbrev burst : Bytes
burst = (encode_lines-total (subscribe_frames (init ℤ)) (subscribe_frames-AreBytes ℤ)).0

abbrev subscribed : SyncClient ℤ
subscribed = record (SyncClient.init (init ℤ) true true) {
  has_sock = true;
  reader = polling;
  written = burst;
}

subscribed_lem : connect echoing true ≡ ok subscribed
unfolding connect
subscribed_lem =
    connect-lines (init ℤ) true true burst
      (encode_lines-total (subscribe_frames (init ℤ)) (subscribe_frames-AreBytes ℤ)).1

old-IsUndecided : IsUndecided warmer.1 (on_frame session published).0
unfolding matches close close_all close_item close_atom close_numbers on_frame on_publish decoded
    decode i32s word topic_by_address topics Index.index Dict.get Dict.put float_atom
old-IsUndecided = refl

write-echo_confirms_example :
    write echoing yes_args (by_name "csettemp") (one (float (pos 3500))) ≡ record {
      client = some (SyncClient.shut (record client { written = warmer_line }));
      code = ok 0;
    }
unfolding SyncClient.init on_frames
write-echo_confirms_example =
    write-echo_confirms thousandths_laws echoing yes_args (by_name "csettemp")
      (one (float (pos 3500))) subscribed (record client { written = warmer_line }) warmer session
      ((on_frame session published).0 ∷ []) [] subscribed_lem session-IsConsistent no_topic
      write_of_warmer refl warmer_sent (old-IsUndecided, tt) refl

-- The network cuts the stream behind the first byte.
abbrev cut : Bytes → List Bytes
cut [] = []
cut (b ∷ raw) = (b ∷ []) ∷ raw ∷ []

cut-whole : (raw : Bytes) → Bytes.concat (cut raw) ≡ raw
cut-whole [] = refl
cut-whole (b ∷ raw) = ap (◌∷◌ b) (append-nil raw)

connect-subscribes_example :
    (c : SyncClient ℤ) × (SyncClient.connect (SyncClient.init (init ℤ) true true) true ≡ ok c)
    × (fs : List Frame) × (LineDecoder.feed_all LineDecoder.init (cut c.written)
        ≡ (fs, LineDecoder.init))
    × AreSubscriptions subscribe_names fs
connect-subscribes_example = connect-subscribes true true cut cut-whole
