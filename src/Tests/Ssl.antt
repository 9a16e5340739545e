-- ===== src/Tests/Ssl.antt =====
-- OpenSSL over a list of decrypted bytes in memory; and a context with three certificates.
use libsiot.Base.{
  ℕ, zero, suc, ◌≡◌, refl, sym, ap, List, none, ok, running, ◌∙◌, true, false, Bytes, [], ◌∷◌, ◌++◌,
  take, drop, length, take-append-drop, length-take, arith,
}
use libsiot.Base.Int.{ℤ, pos}
use libsiot.Connection.Contract.{IsSource}
use libsiot.SslContext.{server_ssl_context}
use libsiot.SslContext.Chain.{add_all, FirstUses, IsDistinct, add_all_chain}
use libsiot.RangeReader
use libsiot.RangeReader.{range_reader}
use libsiot.UnixSocket.{unix_socket}
use libsiot.OpenSsl.{OpenSsl, SslConnection, connection}
use libsiot.OpenSsl.Silent.{Visit, answers, nonblocking_receives_nothing}
use libsiot.OpenSsl.Sink.{Wrote, Sends, ssl-IsChannel}
use libsiot.OpenSsl.Source.{Took, NeverEnds}
use libsiot.Tests.Tape.{idle_runtime, Any}
use libsiot.Tests.Socket.{memory}

abbrev read_memory : ℕ → Bytes → ℤ × Bytes × Bytes
read_memory zero w = (pos 0, [], w)
read_memory (suc len) [] = (pos 0, [], [])
read_memory (suc len) (b ∷ w) = (pos (suc (length (take len w))), b ∷ take len w, drop len w)

abbrev decrypted : OpenSsl Bytes
decrypted = record {
  ctx_new = λ w. (true, w);
  use_certificate_file = λ file w. (pos 1, w);
  use_private_key_file = λ file w. (pos 1, w);
  ssl_new = λ w. (true, w);
  set_fd = λ fd w. (pos 1, w);
  accept = λ w. (pos 1, w);
  pending = λ w. length w;
  read = read_memory;
  write = λ bytes w. (pos (length bytes), w);
  get_error = λ ret w. pos 6;
  is_syscall_error = λ e. false;
  queued_error = λ w. (pos 0, w);
  get_shutdown = λ w. pos 0;
  shutdown = λ w. w;
  ssl_free = λ w. w;
  ctx_free = λ w. w;
  errno_text = λ w. "Success";
  number_text = λ n. "6";
  error_text = λ n. "closed";
}

take_all : (w : Bytes) → take (length w) w ≡ w
take_all [] = refl
take_all (b ∷ w) = rw (take_all w)

take_part : (len : ℕ) (w : Bytes) → take (length (take len w)) (take len w) ++ drop len w ≡ w
take_part len w = ap (λ t. t ++ drop len w) (take_all (take len w)) ∙ take-append-drop len w

read_memory-Took : (len : ℕ) (w : Bytes) → Took (λ v. v) len w (read_memory len w)
read_memory-Took zero w = refl
read_memory-Took (suc len) [] = refl
read_memory-Took (suc len) (b ∷ w) =
    (ap (◌∷◌ b) (sym (take_part len w)), omega (arith, length-take len w))

-- What is written can be read from the same handle.
abbrev echo : OpenSsl Bytes
echo = record decrypted { write = λ bytes w. (pos (length bytes), w ++ bytes) }

echo-Wrote : (bytes w : Bytes) → Wrote (λ v. v) bytes w (echo.write bytes w)
echo-Wrote [] w = tt
echo-Wrote (b ∷ bytes) w = (omega arith, ap (◌++◌ w) (sym (take_all (b ∷ bytes))))

ssl-IsChannel_example :
    IsSource (connection memory echo idle_runtime) Any NeverEnds (λ d. d.base.system)
    × ((bytes : Bytes) (flags : ℕ) (c : SslConnection Bytes)
        → Sends
            (λ v. v)
            bytes
            c.base.system
            ((connection memory echo idle_runtime).send bytes flags c))
    × ((bytes : Bytes) (flags : ℕ) (c : SslConnection Bytes)
        → NeverEnds c
        → NeverEnds ((connection memory echo idle_runtime).send bytes flags c).1)
ssl-IsChannel_example =
    ssl-IsChannel memory echo (λ w. w) (λ w. w) read_memory-Took echo-Wrote idle_runtime

-- A handle that has decrypted nothing, as it is after the handshake, and two bytes that arrive.
abbrev fresh : OpenSsl Bytes
fresh = record decrypted { pending = λ w. 0 }

abbrev free_connection : SslConnection Bytes
free_connection = record {
  base = unix_socket memory 1 none 4 0 [];
  blocking = false;
  ssl_last_use = 7;
}

abbrev two_visits : List (Visit Bytes)
two_visits =
    record { arrives = (λ w. w ++ 7 ∷ []); maxlen = 10; flags = 0 }
    ∷ record { arrives = (λ w. w ++ 8 ∷ []); maxlen = 0; flags = 0 }
    ∷ []

nonblocking_receives_nothing_example :
    let (got, after) = answers memory fresh two_visits free_connection in
    (got ≡ ok [] ∷ ok [] ∷ [])
    × (after.base.system ≡ 7 ∷ 8 ∷ [])
    × (after.base.eof ≡ false)
    × ((RangeReader.drain
          (connection memory fresh idle_runtime)
          50
          (range_reader 2 free_connection 3 true)).0
        ≡ running)
unfolding unix_socket
nonblocking_receives_nothing_example =
    nonblocking_receives_nothing memory fresh idle_runtime two_visits 50
      (range_reader 2 free_connection 3 true) ((λ w. refl), ((λ w. refl), tt)) refl refl refl
      (omega arith) (omega arith)

add_all_chain_example :
    let chain =
      (add_all ("a.pem" ∷ "b.pem" ∷ "a.pem" ∷ []) (server_ssl_context "c" "k")).chain_certs in
    FirstUses [] ("a.pem" ∷ "b.pem" ∷ "a.pem" ∷ []) chain × IsDistinct chain
add_all_chain_example = add_all_chain "c" "k" ("a.pem" ∷ "b.pem" ∷ "a.pem" ∷ [])
