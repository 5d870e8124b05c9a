-- ===== src/Tests/Wire.antt =====
-- The frames and the stream at concrete inputs.
use storefs.Prelude.{◌<◌, ◌≡◌, refl, some, [], ◌∷◌, ◌++◌, length, arith}
use storefs.Prelude.Text.{Bytes, codes}
use storefs.Os.{Trace, Os, ok}
use storefs.Frame.{frame_header, masked_from}
use storefs.Ws.{rand_byte, rand_bytes, write_all, send_frame, ws_send_text, ws_recv_text, read_full}
use storefs.Ws.Stream.{consumed, read_full_lem}
use storefs.Ws.RoundTrip.{written, ws_send_text-frame, recv-send}
use storefs.Tests.Machines.{deaf, carrying, carrying-Streams}

abbrev hello : Bytes
hello = codes "{\"kind\":\"token\"}"

abbrev mask : Bytes
mask = 77 ∷ 77 ∷ 77 ∷ 77 ∷ []

abbrev frame : Bytes
frame = frame_header (length hello) mask ++ masked_from 0 mask hello

-- Writes take all, and there is memory.
abbrev sender : Os
sender = record deaf { malloc = λ t n. some 9 }

-- The trace of the sender, when it has sent.
abbrev sent_trace : Trace
sent_trace = (ws_send_text sender 3 hello []).1

hello_sent : ws_send_text sender 3 hello [] ≡ (ok tt, sent_trace)
unfolding rand_byte rand_bytes write_all send_frame ws_send_text frame_header masked_from
hello_sent = refl

hello_written : written 3 sent_trace ≡ written 3 [] ++ frame
unfolding rand_byte rand_bytes write_all send_frame ws_send_text frame_header masked_from
hello_written = refl

recv-send_example :
    (p' : Trace) × (ws_recv_text (carrying frame) 4 1024 [] ≡ (ok hello, p'))
    × (consumed 4 p' ≡ frame)
recv-send_example =
    recv-send sender (carrying frame) 3 4 1024 hello frame [] sent_trace hello_sent hello_written
      (carrying-Streams frame 4) (omega arith)

ws_send_text-frame_example :
    (mask' : Bytes) × (length mask' ≡ 4)
    × (length hello < 65536)
    × (written 3 sent_trace
        ≡ written 3 [] ++ (frame_header (length hello) mask' ++ masked_from 0 mask' hello))
ws_send_text-frame_example = ws_send_text-frame sender 3 hello [] hello_sent

read_full_lem_example :
    (t' : Trace) × (read_full (carrying hello) 4 8 [] ≡ (ok (codes "{\"kind\":"), t'))
    × (consumed 4 t' ≡ consumed 4 [] ++ codes "{\"kind\":")
read_full_lem_example =
    read_full_lem (carrying hello) 4 hello (carrying-Streams hello 4) (codes "{\"kind\":")
      (codes "\"token\"}") [] refl
