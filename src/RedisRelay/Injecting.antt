-- ===== src/RedisRelay/Injecting.antt =====
-- Messages that engine/history.go writes to the stream of a room are its history, as a server that keeps
-- streams answers.
use stream_relay.Prelude.{
  ℕ, suc, ◌<◌, ◌≤◌, ◌≡◌, refl, sym, ap, ◌∙◌, ◌⊎◌, inl, inr, none, some, List, [], ◌∷◌, ◌++◌, Bytes,
  codes, arith, Map, length, take, append_assoc, append-nil,
}
use stream_relay.Decimal.{int64_bound}
use stream_relay.Protocol.{Error, ok, err}
use stream_relay.Types.{Message}
use stream_relay.Resp.{as_string}
use stream_relay.Streams.{StreamEntry, of_answer}
use stream_relay.Streams.Commands.{Do, field_arguments, x_add, x_range, unless_error}
use stream_relay.Streams.Replies.{bulk, parse_entries-values}
use stream_relay.RedisRelay.{Relay, stream_key, stream_fields}
use stream_relay.RedisRelay.Recovery.{wrapped, publish_to_stream}
use stream_relay.RedisRelay.History.{prepared, get_history_from_redis, inject_history_to_redis}
use stream_relay.RedisRelay.Injected.{
  IsRefused, range_command, KeepsStreams, ids_of, entries_for, numbered, all_prepared, AllStorable,
  unless_error-IsRefused, ids_of-entries_for, length-all_prepared, take_all, length-entries_for,
  entries_for-AllDistinct, parse_each-entries_for,
}

module _ {S : Type 0} (do_command : Do S) (contents : S → Bytes → List StreamEntry)
    (keeps : KeepsStreams do_command contents) where
  added_as :
      (encode : Map Bytes → Bytes) (relay : Relay) (id : Bytes) (msg : Message) (s : S)
      (new_id : Bytes)
      → (do_command
          (codes "XADD"
            ∷ stream_key relay id
            ∷ codes "*"
            ∷ field_arguments (stream_fields encode msg))
          s).1
        ≡ ok (bulk new_id)
      → (publish_to_stream do_command encode relay id msg s).1 ≡ ok new_id
  unfolding publish_to_stream x_add unless_error as_string
  added_as encode relay id msg s new_id answer = rw (publish_to_stream, x_add, answer) refl

  refused_as :
      (encode : Map Bytes → Bytes) (relay : Relay) (id : Bytes) (msg : Message) (s : S)
      → IsRefused
          (do_command
            (codes "XADD"
              ∷ stream_key relay id
              ∷ codes "*"
              ∷ field_arguments (stream_fields encode msg))
            s).1
      → (e : Error) × ((publish_to_stream do_command encode relay id msg s).1 ≡ err e)
  unfolding publish_to_stream x_add
  refused_as encode relay id msg s refused =
      unless_error-IsRefused (codes "XADD") (λ v. of_answer (as_string v)) _ refused

  -- Messages that are injected without an error are behind what the stream had.
  inject-contents :
      (encode : Map Bytes → Bytes) (now : ℕ) (relay : Relay) (id : Bytes) (msgs : List Message)
      (s : S)
      → let key = stream_key relay id in
        let (next, stamped, error) =
          inject_history_to_redis do_command encode now relay id msgs s in
        error ≡ none
        → (ids : List Bytes) × (length ids ≡ length msgs)
          × (stamped ≡ all_prepared now id msgs)
          × (contents next key
              ≡ contents s key ++ entries_for encode ids (all_prepared now id msgs))
  unfolding inject_history_to_redis publish_to_stream x_add unless_error
  inject-contents encode now relay id [] s fine =
      ([], refl, refl, sym (append-nil (contents s (stream_key relay id))))
  inject-contents encode now relay id (msg ∷ msgs) s fine =
      let ready = prepared now id msg in
      let key = stream_key relay id in
      let next = (publish_to_stream do_command encode relay id ready s).0 in
      let all = inject_history_to_redis do_command encode now relay id (msg ∷ msgs) s in
      let others = inject_history_to_redis do_command encode now relay id msgs next in
      elim (keeps.adds key (stream_fields encode ready) s) [
        | inl refused ↦
            let (e, failing) = refused_as encode relay id ready s refused in
            let stops : all.2 ≡ some (wrapped (codes "failed to inject message") e) =
              rw (inject_history_to_redis, failing) refl in
            let bad = sym stops ∙ fine in absurd cc
        | inr (new_id, answer, added) ↦
            let entered = added_as encode relay id ready s new_id answer in
            let goes_on : all ≡ (others.0, ready ∷ others.1, others.2) =
              rw (inject_history_to_redis, entered) refl in
            let still : others.2 ≡ none = sym (ap (λ r. r.2) goes_on) ∙ fine in
            let (ids, same, stamped, after) = inject-contents encode now relay id msgs next still in
            let rest = all_prepared now id msgs in
            let entry : StreamEntry = record { id = new_id; fields = stream_fields encode ready } in
            rw (inject_history_to_redis, entered)
              (
                new_id ∷ ids,
                ap suc same,
                ap (λ (ms : List Message). ready ∷ ms) stamped,
                after
                    ∙ ap (λ (es : List StreamEntry). es ++ entries_for encode ids rest) added
                    ∙ append_assoc (contents s key) (entry ∷ []) (entries_for encode ids rest),
              )
      ]

  -- What is injected into an empty stream without an error, no more than the limit, is the history of the
  -- room, unless the server refuses the read: the messages in their order, with the room, a time, and the
  -- ids of the entries that the stream has then, one for each message. The limit is at least 1 and an
  -- int64, and so are the times; the metadata come back from their JSON, which is not empty; and the server
  -- keeps its streams as Redis documents.
  pub get_history_from_redis-inject :
      (encode : Map Bytes → Bytes) (decode : Bytes → Map Bytes) (now : ℕ) (relay : Relay)
      (id : Bytes) (msgs : List Message) (limit : ℕ) (s : S)
      → contents s (stream_key relay id) ≡ []
      → length msgs ≤ suc limit
      → suc limit < int64_bound
      → AllStorable encode decode now msgs
      → (inject_history_to_redis do_command encode now relay id msgs s).2 ≡ none
      → let (next, stamped, _) = inject_history_to_redis do_command encode now relay id msgs s in
        let key = stream_key relay id in
        let ids = ids_of (contents next key) in
        (stamped ≡ all_prepared now id msgs)
        × (length ids ≡ length msgs)
        × (IsRefused (do_command (range_command key limit) next).1
            ⊎ ((get_history_from_redis do_command decode relay id (suc limit) next).1
                ≡ ok (numbered ids stamped)))
  unfolding get_history_from_redis x_range unless_error
  get_history_from_redis-inject encode decode now relay id msgs limit s empty fits small storable
        fine =
      let key = stream_key relay id in
      let ready = all_prepared now id msgs in
      let next = (inject_history_to_redis do_command encode now relay id msgs s).0 in
      let (ids, same, stamped, after) = inject-contents encode now relay id msgs s fine in
      let entries = entries_for encode ids ready in
      let held : contents next key ≡ entries =
        after ∙ ap (λ (es : List StreamEntry). es ++ entries) empty in
      let named : ids_of (contents next key) ≡ ids =
        ap ids_of held
        ∙ ids_of-entries_for encode ids ready (same ∙ sym (length-all_prepared now id msgs)) in
      let whole : take (suc limit) (contents next key) ≡ entries =
        ap (λ (es : List StreamEntry). take (suc limit) es) held
        ∙ take_all (suc limit) entries (omega (arith, length-entries_for encode now id ids msgs)) in
      let distinct = entries_for-AllDistinct encode ids ready in
      (
        stamped,
        ap (λ (is : List Bytes). length is) named ∙ same,
        elim (keeps.ranges key limit next small) [
          | inl refused ↦ inl refused
          | inr answer ↦ inr (
              rw
                (
                  get_history_from_redis,
                  x_range,
                  answer,
                  whole,
                  unless_error,
                  parse_entries-values entries distinct,
                  named,
                )
                (ap ok (
                  parse_each-entries_for encode decode now id ids msgs storable
                  ∙ ap (λ (ms : List Message). numbered ids ms) (sym stamped))))
        ],
      )
