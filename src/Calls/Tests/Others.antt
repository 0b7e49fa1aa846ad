-- ===== src/Calls/Tests/Others.antt =====
-- client.go: a second ping while a first one waits.
use esphome_apiclient.Common.{[], nat_key, arith}
use esphome_apiclient.Pb.Message.{Message}
use esphome_apiclient.Router.{new_router, on}
use esphome_apiclient.Client.State.{new_client}
use esphome_apiclient.Client.Exchange.{send_message}
use esphome_apiclient.Calls.Registering.{register_claims}
use esphome_apiclient.Calls.Calling.{Call, open_call}
use esphome_apiclient.Calls.Requests.{request_call}
use esphome_apiclient.Calls.Tests.{anything, silent, opened}
use esphome_apiclient.Calls.{answers}
use esphome_apiclient.Calls.Waiting.{Elsewhere}
use esphome_apiclient.Calls.Requests.{request_call-Sound}
use esphome_apiclient.Calls.Others.{open_call-Elsewhere}
use esphome_apiclient.Router.Registered.{IsValid, on-IsValid, new_router-IsValid}

abbrev first_ping : Call
first_ping = request_call (Message.ping_request []) 7 8

opened-IsValid : IsValid (opened first_ping).client.router
unfolding open_call register_claims send_message new_client new_router
opened-IsValid = on-IsValid 8 (answers 0) new_router new_router-IsValid (omega arith)

open_call-Elsewhere_example :
    Elsewhere 0 (opened first_ping) (open_call anything silent first_ping (opened first_ping)).1
unfolding open_call register_claims send_message on new_client new_router
open_call-Elsewhere_example =
    open_call-Elsewhere anything silent first_ping (opened first_ping) 0 (omega arith)
      opened-IsValid (omega arith) (request_call-Sound (Message.ping_request []) 7 8 1)
