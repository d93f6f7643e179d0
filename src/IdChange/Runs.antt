-- ===== src/IdChange/Runs.antt =====
-- A run with integers whose lowest byte stands first.
use goed2k_server.Base.{◌≡◌, [], ◌∷◌, ◌++◌, some, length, arith}
use goed2k_server.IdChange.{IdChangeExtended, get, put, bytes_count}
use goed2k_server.Wire.Samples.{sample_wire, sample_wire_laws}
use goed2k_server.IdChange.RoundTrip.{get-put}

abbrev sent : IdChangeExtended
sent = record {
  client_id = 16777217;
  tcp_flags = 1;
  aux_port = 4661;
  reported_ip = 16777217;
  obfuscation_tcp_port = 4661;
}

abbrev blank : IdChangeExtended
blank = record {
  client_id = 0;
  tcp_flags = 0;
  aux_port = 0;
  reported_ip = 0;
  obfuscation_tcp_port = 0;
}

get-put_example :
    (get sample_wire blank (put sample_wire sent [] ++ (9 ∷ [])) ≡ some (sent, 9 ∷ []))
    × (length (put sample_wire sent []) ≡ bytes_count sent)
get-put_example =
    get-put sample_wire sample_wire_laws sent blank (9 ∷ [])
      (omega arith, omega arith, omega arith, omega arith, omega arith)
