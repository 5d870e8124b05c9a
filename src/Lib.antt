-- ===== src/Lib.antt =====
-- The C clients of StoreFS's RDMA transfer path: examples/rdma/c.
--
-- A client moves an object between its memory and the store. It opens a websocket to the server, says
-- which S3 request it stands behind, exchanges the addresses of the two queue pairs, registers a buffer
-- and sends the server the token by which the server reads or writes it; the S3 request itself has no
-- body. rdmalib.c is that control channel and the queue pair; s3rdmaget.c and s3rdmaput.c move one
-- object, and s3rdmamultipart.c uploads a file in parts; s3client.c makes and signs the requests.
--
-- The files, and the code that they stand for (examples/rdma/c, rdmalib.c unless another is named):
--   Base64     base64_encode; Base64/RoundTrip has the decoder that states what it writes
--   Url        ws_parse_url, and the text of the upgrade request of ws_dial
--   Frame      the bytes of a frame in ws_send_text and ws_recv_text
--   Ws         read_full, ws_dial, ws_send_text, ws_recv_text and ws_close; Ws/Stream states what a
--              stream socket does, Ws/RoundTrip has the two ends of a connection, Ws/Dial and Ws/Leaks say what is
--              released
--   Json       json_find_key and json_get_u64, _bool, _string and _bytes16; Json/Find
--   QpInfo     qpinfo_t, its message and its parser; QpInfo/RoundTrip
--   Protocol   send_register_request, recv_register_response, send_qpinfo_client,
--              recv_qpinfo_server and send_token; Protocol/Bounds and Leaks
--   Verbs      v_open_device, v_qp_to_init, v_qp_to_rtr, v_qp_to_rts, v_query_mtu_enum and
--              v_query_gid; Verbs/Leaks
--   Session    struct rdma_session, cleanup, rdma_handshake, rdma_recv_setup, rdma_send_setup and
--              rdma_session_destroy; Session/BringUp, Objects, Share, Leaks and States
--   Endpoint   ws_url_from_endpoint of s3rdmamultipart.c and of s3rdmaput.c and s3rdmaget.c, and
--              host_from_endpoint of s3client.c and s3rdmamultipart.c; Endpoint/Laws
--   Sign       sign_request of s3client.c and what it calls; Sign/Agree, Sign/Bounds
--   Headers    the calls of curl_slist_append and curl_slist_free_all in s3_request of s3rdmamultipart.c
--              and in s3client.c; Headers/Whole says what they do where libcurl has memory
--   Http       s3_request of s3rdmamultipart.c; Http/Success, Http/Leaks, and Http/Last, which says which
--              request was the last
--   Client     make_curl, s3_head_object, s3_get_object and s3_put_object of s3client.c; Client/Size and
--              Leaks
--   Multipart  s3rdmamultipart.c: Options is parse_args; Sign its own copy of sign_request; Requests the
--              six S3 operations; Xml is find_tag_text, parse_upload_id, parse_parts and the body of
--              s3_complete_multipart; Store is parse_parts with its memory (Memory, Parse); Plan is the count of parts and the loop of upload_parts_rdma (Tiling
--              and Bounds state what it does); Upload is mmap_part, upload_one_part_rdma and
--              upload_parts_rdma (Upload/Parts, Leaks); Main is main (Main/Leaks, Main/Order)
--   Transfer   what s3rdmaput.c and s3rdmaget.c share; Transfer/Put and Transfer/Get are their mains
--   Shim       verbs_shim.c of examples/rdma/java/native, which examples/rdma/python/py_rdma has as well;
--              Shim/Agree compares it with Verbs
--   Response   write_response of s3rdmamultipart.c and its buffer; Response/Growth and Whole
--   Os         the system, as a parameter; Os/Live says what is held, and has with Os/Rules the rules by
--              which a program is shown to give back what it takes; Os/States reads off the states that a
--              queue pair is asked for, in Ws/States, Protocol/States and Session/States
--   Prelude    lists, integers, bits, C strings and decimal text
--   Tests      concrete systems and inputs
--
-- State. A program is a function from a trace, the list of all that happened with the latest event in
-- front, to a result and the longer trace. Sockets, memory, files, the clock, the hash functions, libcurl
-- and libibverbs are fields of the record Os: each answers from the trace and the arguments of the call,
-- so that a statement for every Os is one for every behaviour of the system, errors included. What a program holds is read off the
-- trace: `live` lists what was acquired and not released, and `sound` says that nothing was released
-- that was not held. The pointers of struct rdma_session are options, `none` for NULL. The handshake
-- works on a session and the trace together, so that a failure leaves the session as far as it was
-- filled, as in the code.
--
-- Numbers are natural numbers or integers, with the wrap of their C type written out where the code
-- can pass it. A C string is the list of its bytes without the NUL, and a cut to the size of a buffer
-- is written out. `err` is a constructor for each message of the code.
--
-- Fuel. The loop of read_full has as many rounds as bytes are wanted, since each round reads at least
-- one. The loop of parse_parts has one round more
-- than the text has bytes, since each takes at least one. The doubling of
-- write_response has 64 rounds, which reach any need of at most 2^63 bytes. The other loops
-- are recursion on their data; the loop over the response of the upgrade has the 2047 rounds of the
-- code's buffer.
--
-- A request over libcurl is one call of `perform`, which answers with the status, the lines of the
-- headers and the chunks of the body; the callbacks of the code are folds over these. What the program
-- does to a handle before the call is the record Request.
--
-- Not modelled: what is printed; rdma_crc32 (a call of zlib), of which only the download's message makes
-- use; rdma_mr_lkey of the shim; and the clients in other languages.
-- A text that sign_request cuts to its
-- buffer is hashed past the end of the buffer: the model fails there (`out_of_bounds`), as it does where
-- s3_list_uploads writes behind its query.
pub mod Base64
pub mod Client
pub mod Endpoint
pub mod Frame
pub mod Headers
pub mod Http
pub mod Json
pub mod Multipart
pub mod Os
pub mod Prelude
pub mod Protocol
pub mod QpInfo
pub mod Response
pub mod Session
pub mod Shim
pub mod Sign
pub mod Tests
pub mod Transfer
pub mod Url
pub mod Verbs
pub mod Ws
