-- ===== src/Lib.antt =====
-- The Go client of the ESPHome native API.
--
-- A client holds one connection to a device. client.go marshals a message, framer.go and codec/codec.go
-- put it on the wire as a frame 0x00 | size | type | payload, and the same way back pb/registry.go says which
-- message a type stands for. What a device tells about its entities is cached by entities.go and
-- services.go, handlers are called through router.go, and commands.go checks a command against the cached
-- entities, builds its request and sends it.
--
-- Stream     the io.Reader and io.Writer that the codec is given: a source answers ReadByte and
--            io.ReadFull, a sink takes bytes. A connection delivers chunks of any size; a buffer is
--            the bytes alone. Stream/Sinks has what io.Writer documents.
-- Codec      codec/codec.go: read_frame is ReadFrame, write_frame is WriteFrame, with PutUvarint
--            and ReadUvarint of encoding/binary.
-- Noise      transport/noise.go: the frames 0x01 | length | ciphertext, and the message type and content
--            inside. noise_write_frame is WriteFrame, noise_read_frame is ReadFrame. Noise/Handshake has
--            performHandshake and NewNoiseTransport.
-- Pb         pb/registry.go and the structs of pb/api.pb.go that the other parts use. A message that no
--            part looks into keeps its fields as they are on the wire.
-- Entities   entities.go: one record for each entity type, X_entity for what a listing makes of it, update_X
--            for what a state message does to it. The registry's maps hold addresses of objects, so that
--            an update is seen through every map; `next` is the allocator.
-- Router     router.go: on, remove and dispatch. The function that On returns is the id that it removes.
-- Services   the registry of services.go.
-- Client     client.go and framer.go: the state, the options, send_message, recv_message, the handshake,
--            and the plain and the noise framer, implementations of the interface record Framer; SubscribeStates;
--            from services.go and logs.go, ExecuteService and SubscribeLogs.
--            Client/Connect has connect, DialWithContext and reconnectLoop, Client/Backoff its waits;
--            Client/Welcomed is about the reply that the handshake waits for.
-- Calls      the calls of client.go and bluetooth.go that wait for the device. A closure that is registered
--            with the router is a constructor of Closure with the variables that it captures; the channel or
--            the slice that it writes to is a Frame at an address; `local` and `global` are the bodies
--            of the closures, run_all the loop of Dispatch. A call registers its closures and sends its request
--            (open_call), waits while the read loop dispatches messages and the rest of the client goes on
--            (Waits), and ends by a value, its timer or the end of the connection (Ends, Called). Requests
--            has requestResponse, Methods what is made of it and Close, Listing ListEntities, Gatt and
--            Discovery bluetooth.go, Advertising its subscriptions. Turns has a turn of readLoop, Reading the
--            loop over the frames that ReadFrame gives, and Incoming the message of a frame.
-- Commands   commands.go: the methods are one data type Command, with the entity and the request of
--            each; perform is the body that they share.
-- Common     names, lists, and maps as association lists with one entry for a key.
--
-- Code that mutates a struct under its lock is a function from the old state to the new one. Bytes are
-- numbers, uint32 and uint64 are kept below 2 ^ 32 and 2 ^ 64 by a written remainder where the source can pass
-- them. Floats are the bits of the float32. ReadUvarint has the ten rounds of binary.MaxVarintLen64, which
-- is a bound of the source. PutUvarint fills its ten bytes only for a number of 2 ^ 64 or more, so it does not
-- panic on a length or a type. io.ReadFull recurs on the bytes that are missing and on the chunks.
--
-- google.golang.org/protobuf is the parameter Protobuf, with the laws Fills and Restores; a CipherState of
-- github.com/flynn/noise is the parameter Cipher, with the law Paired; net.Conn is the parameter
-- Transport; HandshakeState of github.com/flynn/noise, and Network for what dialling and the decoding of a key
-- give. A panic and a send that blocks are the values of Crash, and the dispatch that meets one does not end
-- while the call waits. A timer may fire at any moment, the messages between the registration and the request of
-- a call count as arriving after the request, and a call takes its value and removes its closures in one step.
-- Durations are nanoseconds.
--
-- Not modelled: dialling and mDNS, which are network calls; keepaliveLoop, and what reconnectLoop does once it is
-- connected; the data handler of BluetoothGATTNotify; the command line program; and the generated code of pb but
-- for the structs.
pub mod Common
pub mod Stream
pub mod Codec
pub mod Noise
pub mod Pb
pub mod Entities
pub mod Router
pub mod Services
pub mod Client
pub mod Calls
pub mod Commands
