-- ===== src/OpenSsl/Silent.antt =====
-- An encrypted connection that does not block: what `Receive` makes of `SSL_pending`.
use mathlib.Core.List.{map}
use libsiot.Base.{
  ap, ℕ, ◌<◌, ◌≡◌, refl, ◌∙◌, Bool, false, none, some, Option, Bytes, List, [], ◌∷◌, Result, ok,
  running, u64_mod,
}
use libsiot.Connection.{Runtime}
use libsiot.RangeReader
use libsiot.RangeReader.{RangeReader}
use libsiot.RangeReader.Drain.{drain_stalls}
use libsiot.UnixSocket.{Sockets}
use libsiot.OpenSsl.{OpenSsl, SslConnection, read_length, read_by, receive, connection, set_system}

-- What happens to the system before a call of `Receive`, and the call's arguments.
pub record Visit (W : Type 0) : Type 0 where
  pub arrives : W → W
  pub maxlen : ℕ
  pub flags : ℕ

module _ {W : Type 0} (net : Sockets W) (lib : OpenSsl W) where
  -- `SSL_pending` counts the bytes that `SSL_read` has decrypted and not handed over. What the peer
  -- sends does not change it.
  abbrev pub AllUndecrypted : List (Visit W) → Type 0
  AllUndecrypted [] = Unit
  AllUndecrypted (v ∷ vs) =
      ((w : W) → lib.pending (v.arrives w) ≡ lib.pending w) × AllUndecrypted vs

  -- A client that calls `Receive` again and again, and the system as the arrivals alone make it.
  abbrev pub answers : List (Visit W) → SslConnection W → List (Result Bytes) × SslConnection W
  answers [] c = ([], c)
  answers (v ∷ vs) c =
      let (r, c') =
        receive net lib v.maxlen v.flags (set_system net lib (v.arrives c.base.system) c) in
      let (rs, c'') = answers vs c' in (r ∷ rs, c'')

  abbrev pub arrivals : List (Visit W) → W → W
  arrivals [] w = w
  arrivals (v ∷ vs) w = arrivals vs (v.arrives w)

  nothing_to_read :
      (blocking : Bool) (len maxlen : ℕ)
      → blocking ≡ false
      → len ≡ 0
      → read_length net lib blocking len maxlen ≡ none
  unfolding read_length
  nothing_to_read blocking len maxlen free none_there = rw (free, none_there)

  receives_nothing :
      (maxlen flags : ℕ) (c : SslConnection W)
      → c.blocking ≡ false
      → lib.pending c.base.system ≡ 0
      → receive net lib maxlen flags c ≡ (ok [], record c { ssl_last_use = net.time c.base.system })
  unfolding receive
  receives_nothing maxlen flags c free none_there =
      ap
        (λ (o : Option ℕ). elim o as (λ _. Result Bytes × SslConnection W) [
          | none ↦ (ok [], used)
          | some len ↦ read_by net lib used (lib.read len c.base.system)
        ])
        (nothing_to_read c.blocking (lib.pending c.base.system) maxlen free none_there)
    where
      used : SslConnection W
      used = record c { ssl_last_use = net.time c.base.system }

  answers_nothing :
      (vs : List (Visit W)) (c : SslConnection W)
      → AllUndecrypted vs
      → c.blocking ≡ false
      → lib.pending c.base.system ≡ 0
      → ((answers vs c).0 ≡ map (λ _. ok []) vs)
        × ((answers vs c).1.base.system ≡ arrivals vs c.base.system)
        × ((answers vs c).1.base.eof ≡ c.base.eof)
  answers_nothing [] c u free none_there = (refl, refl, refl)
  answers_nothing (v ∷ vs) c (same, u) free none_there =
      let w = v.arrives c.base.system in
      let still = same c.base.system ∙ none_there in
      rw (receives_nothing v.maxlen v.flags (set_system net lib w c) free still) (
        let (got, system, eof) =
          answers_nothing vs (record (set_system net lib w c) { ssl_last_use = net.time w }) u free
            still in
        (ap (◌∷◌ (ok [])) got, system, eof))

  module _ (rt : Runtime W) where
    abbrev IsSilent : SslConnection W → Type 0
    IsSilent c = (c.base.eof ≡ false) × (c.blocking ≡ false) × (lib.pending c.base.system ≡ 0)

    silent :
        (n : ℕ) (c : SslConnection W)
        → IsSilent c
        → ((connection net lib rt).is_eof c ≡ false)
          × (((connection net lib rt).receive n 0 c).0 ≡ ok [])
          × IsSilent ((connection net lib rt).receive n 0 c).1
    unfolding connection
    silent n c (going, free, none_there) =
        rw (receives_nothing n 0 c free none_there) (going, refl, (going, free, none_there))

  -- Let an encrypted connection not block, have nothing decrypted and its flag for the end not set.
  -- However often a client calls `Receive`, with whatever arguments and whatever the peer sends in
  -- between, every call hands over nothing, the system is what the arrivals alone make it, and the
  -- flag for the end is not set. And around such a connection, the loop of `Shutdown` of a range
  -- reader with part of the range unread never ends, since no number of rounds is enough.
  pub nonblocking_receives_nothing :
      (rt : Runtime W) (vs : List (Visit W)) (fuel : ℕ) (r : RangeReader (SslConnection W))
      → AllUndecrypted vs
      → r.wrapped.blocking ≡ false
      → lib.pending r.wrapped.base.system ≡ 0
      → r.wrapped.base.eof ≡ false
      → r.own.offset < r.own.max_size
      → r.own.max_size < u64_mod
      → let (got, after) = answers vs r.wrapped in
        (got ≡ map (λ _. ok []) vs)
        × (after.base.system ≡ arrivals vs r.wrapped.base.system)
        × (after.base.eof ≡ false)
        × ((RangeReader.drain (connection net lib rt) fuel r).0 ≡ running)
  nonblocking_receives_nothing rt vs fuel r undecrypted free none_there going under fits =
      let (got, system, eof) = answers_nothing vs r.wrapped undecrypted free none_there in
      (
        got,
        system,
        eof ∙ going,
        drain_stalls (connection net lib rt) (IsSilent rt) (silent rt) fuel r
            (going, free, none_there) under fits,
      )
