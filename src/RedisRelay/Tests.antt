-- ===== src/RedisRelay/Tests.antt =====
-- The theorems on the relay on Redis at inputs that meet their hypotheses.
use stream_relay.Prelude.{
  ◌≡◌, ◌≢◌, refl, true, false, some, List, [], ◌∷◌, Bytes, codes, arith, Map, Bytes-discrete,
  lookup,
}
use stream_relay.Protocol.{ok}
use stream_relay.Types.{
  Message, Subscriber, received, DeliveryResult, PublishOptions, room_type_group,
}
use stream_relay.Decimal.{format_int, format_nat, digits_from}
use stream_relay.RedisRoom.{Room}
use stream_relay.RedisRoom.Rounds.{listen_round}
use stream_relay.Streams.{StreamEntry}
use stream_relay.RedisRelay.{
  Relay, get_redis_room, addressed, stream_fields, parse_stream_entry, redis_publish,
}
use stream_relay.RedisRelay.Twice.{listen_round-redis_publish}

program : Unit {0}
unfolding get_redis_room lookup Bytes-discrete stream_fields format_int format_nat digits_from
program = tt

abbrev ann : Subscriber
ann = record { user_id = codes "ann"; conn = 1; receive = λ msg n. received }

abbrev lobby : Room
lobby = record {
  config = record {
    id = codes "lobby";
    kind = room_type_group;
    history_size = 3;
    history_ttl = 0;
    members = [];
  };
  subscribers = (codes "ann", ann) ∷ [];
  presence = [];
  running = true;
  stop_closed = false;
  loops = 1;
  last_active = 0;
}

abbrev relay : Relay
relay = record {
  rooms = (codes "lobby", lobby) ∷ [];
  handled = false;
  running = true;
  start_time = 0;
  prefix = codes "sr:";
  total_messages = 0;
}

abbrev tags : Map Bytes
tags = (codes "lang", codes "en") ∷ []

abbrev hello : Message
hello = record {
  id = [];
  room_id = [];
  sender_id = codes "bob";
  kind = codes "text";
  content = codes "hello";
  metadata = tags;
  timestamp = some 12;
}

-- An encoding that is right for these tags.
abbrev encode : Map Bytes → Bytes
encode m = codes "tags"

abbrev decode : Bytes → Map Bytes
decode text = tags

encoded : encode tags ≢ []
encoded = λ e. absurd cc

abbrev loud : PublishOptions
loud = record { skip_sender = true; priority = 10; ttl = 0; persist = true }

listen_round-redis_publish_example :
    let p =
      redis_publish (λ user. true) (ok (codes "12-0")) 15 relay (codes "lobby") hello (some loud) in
    let entry : StreamEntry = record {
      id = codes "12-0";
      fields = stream_fields encode (addressed 15 (codes "lobby") hello);
    } in
    let round =
      listen_round
        (λ user. true)
        false
        15
        lobby
        (record { last_id = codes "$"; consecutive_errors = 0 })
        (ok (parse_stream_entry decode (codes "lobby") entry ∷ [])) in
    (results : List DeliveryResult) × (p.results ≡ ok results) × (round.deliveries ≡ results ∷ [])
unfolding program
listen_round-redis_publish_example =
    listen_round-redis_publish (λ user. true) encode decode 15 relay (codes "lobby") lobby hello
      (codes "12-0") (record { last_id = codes "$"; consecutive_errors = 0 }) 12 (some loud) refl
      refl refl encoded refl refl (omega arith)
