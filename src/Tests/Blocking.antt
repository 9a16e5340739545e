-- ===== src/Tests/Blocking.antt =====
-- A descriptor whose word of flags has `O_NONBLOCK` and `O_APPEND` for its lowest digits, and the
-- access mode above them.
use Prim.Native.Nat.{◌/◌}
use libsiot.Base.{
  ℕ, zero, suc, ◌+◌, ◌*◌, ◌%◌, ◌≡◌, ◌↔◌, ◌⊎◌, refl, ap, Bool, true, false, none, [], if◌then◌else◌,
  ltb, ◌==◌, length, arith,
}
use libsiot.Base.Int.{pos}
use libsiot.Base.Bits.{bit, bit-zero}
use libsiot.UnixSocket.{Sockets, UnixSocket, received, unix_socket, set_blocking}
use libsiot.UnixSocket.Blocking.{IsFcntl, flags_of, set_blocking_roundtrip}

abbrev word : Sockets ℕ
word = record {
  recv = λ fd len flags w. (received [], w);
  send = λ fd bytes flags w. (pos (length bytes), w);
  time = λ w. 7;
  get_flags = λ fd w. w;
  set_flags = λ fd val w. w / 4 * 4 + val % 4;
  shutdown_both = λ fd w. w;
  close = λ fd w. w;
  sockaddr_text = λ peer w. "unix:/tmp/sock";
  ebadf = 9;
  einval = 22;
  enotconn = 107;
  nonblock = 1;
}

abbrev low_two : ℕ → Bool
low_two i = ltb i 2

word-sets :
    (i fd val w : ℕ) → bit i (w / 4 * 4 + val % 4) ≡ (if low_two i then bit i val else bit i w)
word-sets zero fd val w = omega arith
word-sets (suc zero) fd val w = omega arith
word-sets (suc (suc i)) fd val w =
    let rest : (w / 4 * 4 + val % 4) / 2 / 2 ≡ w / 2 / 2 = omega arith in
    let same = ap (bit i) rest in ground arith

lowest : (i : ℕ) → bit i 1 ≡ (if i == 0 then 1 else 0)
lowest zero = refl
lowest (suc i) = ground (arith, bit-zero i)

word-IsFcntl : IsFcntl word low_two 0
word-IsFcntl = record {
  sets = word-sets;
  nonblock_digit = lowest;
  nonblock_settable = refl;
  nonblock_fits = omega arith;
}

abbrev appending : UnixSocket ℕ
appending = unix_socket word 1 none 4 0 6

-- `O_APPEND` does not come back.
appends_no_more : flags_of word (set_blocking word true (set_blocking word false appending)) ≡ 4
unfolding set_blocking unix_socket
appends_no_more = refl

set_blocking_roundtrip_example :
    (bit 1 (flags_of word (set_blocking word true appending))
      ≡ (if (1 == 0) then 0 else bit 1 (flags_of word appending)))
    × ((bit 1 (flags_of word (set_blocking word true (set_blocking word false appending)))
          ≡ bit 1 (flags_of word appending))
        ↔ ((low_two 1 ≡ false) ⊎ (bit 1 (flags_of word appending) ≡ 0)))
set_blocking_roundtrip_example = set_blocking_roundtrip word word-IsFcntl 1 appending (omega arith)
