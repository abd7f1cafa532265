-- ===== src/Protocol/Messages.antt =====
-- The messages of engine/protocol.go: commands, replies and pushes, with their data. A field of type
-- `json.RawMessage` is `none` where it is nil. The JSON of each type is a parameter.
use stream_relay.Prelude.{ℕ, Bool, Option, none, some, List, [], Bytes, codes, Map}
use stream_relay.Protocol.{Result, ok, ◌>>=◌}

abbrev pub protocol_version : Bytes
protocol_version = codes "1.0"

-- A type is a string, also one that no constant names.
abbrev pub CommandType : Type 0
CommandType = Bytes

abbrev pub cmd_connect : CommandType
cmd_connect = codes "connect"

abbrev pub cmd_subscribe : CommandType
cmd_subscribe = codes "subscribe"

abbrev pub cmd_unsubscribe : CommandType
cmd_unsubscribe = codes "unsubscribe"

abbrev pub cmd_publish : CommandType
cmd_publish = codes "publish"

abbrev pub cmd_presence : CommandType
cmd_presence = codes "presence"

abbrev pub cmd_history : CommandType
cmd_history = codes "history"

abbrev pub cmd_ping : CommandType
cmd_ping = codes "ping"

abbrev pub cmd_rpc : CommandType
cmd_rpc = codes "rpc"

abbrev pub PushType : Type 0
PushType = Bytes

abbrev pub push_message : PushType
push_message = codes "message"

abbrev pub push_join : PushType
push_join = codes "join"

abbrev pub push_leave : PushType
push_leave = codes "leave"

abbrev pub push_disconnect : PushType
push_disconnect = codes "disconnect"

abbrev pub push_pong : PushType
push_pong = codes "pong"

abbrev pub code_bad_request : ℕ
code_bad_request = 100

abbrev pub code_unauthorized : ℕ
code_unauthorized = 101

abbrev pub code_permission_denied : ℕ
code_permission_denied = 102

abbrev pub code_not_found : ℕ
code_not_found = 103

abbrev pub code_internal : ℕ
code_internal = 105

pub record Command : Type 0 where
  pub id : ℕ
  pub kind : CommandType
  pub channel : Bytes
  pub payload : Option Bytes

-- The struct `Error`.
pub record ProtocolError : Type 0 where
  pub code : ℕ
  pub text : Bytes

pub record Reply : Type 0 where
  pub id : ℕ
  pub error : Option ProtocolError
  pub result : Option Bytes

pub record Push : Type 0 where
  pub kind : PushType
  pub channel : Bytes
  pub payload : Option Bytes

pub record ConnectRequest : Type 0 where
  pub token : Bytes
  pub payload : Option Bytes
  pub name : Bytes
  pub version : Bytes

pub record ConnectResult : Type 0 where
  pub client : Bytes
  pub version : Bytes
  pub expires : ℕ
  pub ttl : ℕ
  pub payload : Option Bytes
  pub ping : ℕ
  pub pong : Bool

pub record ClientInfo : Type 0 where
  pub user : Bytes
  pub client : Bytes
  pub conn_info : Option Bytes
  pub chan_info : Option Bytes

pub record Publication : Type 0 where
  pub offset : Bytes
  pub content : Bytes
  pub info : Option ClientInfo
  pub tags : Map Bytes

pub record SubscribeRequest : Type 0 where
  pub token : Bytes
  pub recover : Bool
  pub offset : Bytes
  pub epoch : Bytes
  pub payload : Option Bytes

pub record SubscribeResult : Type 0 where
  pub expires : ℕ
  pub ttl : ℕ
  pub recoverable : Bool
  pub offset : Bytes
  pub epoch : Bytes
  pub publications : List Publication
  pub recovered : Bool
  pub payload : Option Bytes
  pub was_recovering : Bool

pub record PublishRequest : Type 0 where
  pub content : Bytes

pub record PublishResult : Type 0 where
  pub offset : Bytes

pub record PresenceResult : Type 0 where
  pub presence : Map ClientInfo

-- `Limit` is an int64; what the code does with one below 0 it does with 0 too, so 0 stands for both.
pub record HistoryRequest : Type 0 where
  pub limit : ℕ
  pub since : Bytes
  pub reverse : Bool

pub record HistoryResult : Type 0 where
  pub publications : List Publication
  pub offset : Bytes
  pub epoch : Bytes

pub record JoinPush : Type 0 where
  pub info : ClientInfo

pub record LeavePush : Type 0 where
  pub info : ClientInfo

pub record DisconnectPush : Type 0 where
  pub code : ℕ
  pub reason : Bytes
  pub reconnect : Bool

-- What `SuccessReply` is given to encode.
pub data Answer : Type 0 where
  connect_answer : ConnectResult → Answer
  subscribe_answer : SubscribeResult → Answer
  unsubscribe_answer : Answer
  publish_answer : PublishResult → Answer
  presence_answer : PresenceResult → Answer
  history_answer : HistoryResult → Answer

-- `json.Marshal` and `json.Unmarshal` on the types of this file. Where the code ignores the error, for a
-- subscription and for the history, it goes on with what decoding has left in the request.
pub record Json : Type 0 where
  pub decode_command : Bytes → Result Command
  pub decode_connect : Bytes → Result ConnectRequest
  pub decode_subscribe : Bytes → SubscribeRequest
  pub decode_publish : Bytes → Result PublishRequest
  pub decode_history : Bytes → HistoryRequest
  pub encode_answer : Answer → Result Bytes
  pub encode_publication : Publication → Result Bytes
  pub encode_join_push : JoinPush → Result Bytes
  pub encode_leave_push : LeavePush → Result Bytes
  pub encode_disconnect_push : DisconnectPush → Result Bytes
  pub encode_reply : Reply → Result Bytes
  pub encode_push : Push → Result Bytes

abbrev pub new_error : ℕ → Bytes → ProtocolError
new_error code text = record { code = code; text = text }

unfoldable pub error_reply : ℕ → ℕ → Bytes → Reply
error_reply id code text = record { id = id; error = some (new_error code text); result = none }

module _ (json : Json) where
  abbrev pub parse_command : Bytes → Result Command
  parse_command text = json.decode_command text

  unfoldable pub success_reply : ℕ → Answer → Result Reply
  success_reply id answer = do
    text ← json.encode_answer answer
    ok (record { id = id; error = none; result = some text })

  unfoldable pub new_publication_push : Bytes → Publication → Result Push
  new_publication_push channel publication = do
    text ← json.encode_publication publication
    ok (record { kind = push_message; channel = channel; payload = some text })

  unfoldable pub new_join_push : Bytes → ClientInfo → Result Push
  new_join_push channel info = do
    text ← json.encode_join_push (record { info = info })
    ok (record { kind = push_join; channel = channel; payload = some text })

  unfoldable pub new_leave_push : Bytes → ClientInfo → Result Push
  new_leave_push channel info = do
    text ← json.encode_leave_push (record { info = info })
    ok (record { kind = push_leave; channel = channel; payload = some text })

  unfoldable pub new_disconnect_push : ℕ → Bytes → Bool → Result Push
  new_disconnect_push code reason reconnect = do
    text ←
        json.encode_disconnect_push (record { code = code; reason = reason; reconnect = reconnect })
    ok (record { kind = push_disconnect; channel = []; payload = some text })

abbrev pub new_pong_push : Push
new_pong_push = record { kind = push_pong; channel = []; payload = none }
