-- ===== src/Server/Handle.antt =====
-- server/src/server.cpp: `handle_frame`, which gives a frame to the handler of its type.
pub mod Hello
pub mod Introduce
pub mod Groups
pub mod Relay
use drop_zone.Base.{ℕ, ◌++◌, ◌==◌, if◌then◌else◌}
use drop_zone.Wire.Header.{
  type_byte, client_hello, send_request, group_query, group_join, group_send_request, accept,
  reject, relay_open, relay_data, relay_close, keep_alive, bye,
}
use drop_zone.Wire.Stream.{Frame}
use drop_zone.Server.Text.{text, message_type_name}
use drop_zone.Server.Store.{World}
use drop_zone.Server.Action.{Action, done, request_close, reject_and_close}
use drop_zone.Server.Handle.Hello.{handle_client_hello}
use drop_zone.Server.Handle.Introduce.{handle_send_request, handle_accept, handle_reject}
use drop_zone.Server.Handle.Groups.{
  handle_group_query, handle_group_join, handle_group_send_request,
}
use drop_zone.Server.Handle.Relay.{handle_relay_open, handle_relay_data, handle_relay_close}

unfoldable pub handle_frame : {L : Type 0} → World L → ℕ → Frame → Action L
handle_frame w c frame =
    let type = frame.header.type in
    if type == type_byte client_hello
    then handle_client_hello w c frame
    else if type == type_byte send_request
    then handle_send_request w c frame
    else if type == type_byte group_query
    then handle_group_query c frame
    else if type == type_byte group_join
    then handle_group_join w c frame
    else if type == type_byte group_send_request
    then handle_group_send_request w c frame
    else if type == type_byte accept
    then handle_accept w c frame
    else if type == type_byte reject
    then handle_reject w c frame
    else if type == type_byte relay_open
    then handle_relay_open w c frame
    else if type == type_byte relay_data
    then handle_relay_data w c frame
    else if type == type_byte relay_close
    then handle_relay_close w c frame
    else if type == type_byte keep_alive
    then done
    else if type == type_byte bye
    then request_close c (text "peer said goodbye")
    else reject_and_close c
        (text "a " ++ (message_type_name type ++ text " frame is not valid here"))
