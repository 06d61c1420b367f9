-- ===== src/Server/Text.antt =====
-- The string literals of the server as bytes, and the names that it has for the message types
-- (common/src/frame.cpp).
use Prim.Native.Char.{code}
use Prim.Native.String.{String}
use drop_zone.Base.{ℕ, List, [], ◌∷◌, ◌++◌, ◌==◌, if◌then◌else◌}
use drop_zone.Wire.Header.{
  type_byte, client_hello, server_hello, send_request, incoming, accept, reject, matched,
  relay_open, relay_data, relay_close, keep_alive, bye, group_query, group_status, group_join,
  group_result, group_send_request, group_roster, offer, decision, chunk, transfer_end,
  transfer_ack, abort,
}

unfoldable pub codes : String → List ℕ
codes String.[] = []
codes (String.◌∷◌ c s) = code c ∷ codes s

unfoldable pub text : String → List ℕ
unfolding codes
text s = codes s

-- `"'" + name + s`.
unfoldable pub quoted : List ℕ → String → List ℕ
quoted name s = text "'" ++ (name ++ text s)

unfoldable pub message_type_name : ℕ → List ℕ
message_type_name type =
    if type == type_byte client_hello
    then text "ClientHello"
    else if type == type_byte server_hello
    then text "ServerHello"
    else if type == type_byte send_request
    then text "SendRequest"
    else if type == type_byte incoming
    then text "Incoming"
    else if type == type_byte accept
    then text "Accept"
    else if type == type_byte reject
    then text "Reject"
    else if type == type_byte matched
    then text "Matched"
    else if type == type_byte relay_open
    then text "RelayOpen"
    else if type == type_byte relay_data
    then text "RelayData"
    else if type == type_byte relay_close
    then text "RelayClose"
    else if type == type_byte keep_alive
    then text "KeepAlive"
    else if type == type_byte bye
    then text "Bye"
    else if type == type_byte group_query
    then text "GroupQuery"
    else if type == type_byte group_status
    then text "GroupStatus"
    else if type == type_byte group_join
    then text "GroupJoin"
    else if type == type_byte group_result
    then text "GroupResult"
    else if type == type_byte group_send_request
    then text "GroupSendRequest"
    else if type == type_byte group_roster
    then text "GroupRoster"
    else if type == type_byte offer
    then text "Offer"
    else if type == type_byte decision
    then text "Decision"
    else if type == type_byte chunk
    then text "Chunk"
    else if type == type_byte transfer_end
    then text "TransferEnd"
    else if type == type_byte transfer_ack
    then text "TransferAck"
    else if type == type_byte abort
    then text "Abort"
    else text "unknown"
