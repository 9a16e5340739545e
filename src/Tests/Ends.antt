-- ===== src/Tests/Ends.antt =====
-- `Shutdown` of a range reader around a tape that logs the calls made outside.
use libsiot.Base.{
  ℕ, zero, suc, ◌<◌, ◌≡◌, ◌≢◌, refl, sym, true, false, some, Bytes, List, [], ◌∷◌, ◌++◌, take, drop,
  length, take-append-drop, length-take, ok, Result, Action, arith,
}
use libsiot.Base.Int.{pos}
use libsiot.Connection.{Connection, Runtime}
use libsiot.Connection.Contract.{IsSource, HasProgress, NeverThrows}
use libsiot.Connection.Closing.{Deed, dequeued, locked, destroyed, View, IsLogged, IsClosable}
use libsiot.Decorator.Closing.{decorated_view}
use libsiot.RangeReader.{RangeReader, range_reader, shutdown}
use libsiot.RangeReader.Source.{InRange}
use libsiot.RangeReader.Closing.{IsSilentReader}
use libsiot.RangeReader.Ends.{KeepsReadable, range_shutdown_returns}
use libsiot.Tests.Tape.{portion, is_empty, Any}

-- The tape and the calls made, the newest first.
abbrev Host : Type 0
Host = Bytes × List Deed

abbrev logs : Deed → Action Host (Unit {0})
logs d w = (ok tt, (w.0, d ∷ w.1))

abbrev read : ℕ → Host → Result Bytes × Host
read k w = (ok (take k w.0), (drop k w.0, w.1))

-- A tape at 7 of the server at 5.
abbrev tape : Connection Host
tape = record {
  receive = λ n flags. read (portion n);
  send = λ bytes flags w. (ok (pos (length bytes)), w);
  peer_as_text = λ w. "tape";
  get_server = λ w. some 5;
  is_eof = λ w. is_empty w.0;
  get_last_use = λ w. 0;
  set_blocking = λ b w. (ok tt, w);
  shutdown = logs (destroyed 7);
  is_shutdown = λ w. false;
}

abbrev runtime : Runtime Host
runtime = record {
  dequeue_connection = λ srv c. logs (dequeued srv c);
  defer_shutdown = λ srv c w. (ok tt, w);
  lock = λ c. logs (locked c);
  destroy = λ c. logs (destroyed c);
}

abbrev deeds : Host → List Deed
deeds w = w.1

abbrev unread : Host → Bytes
unread w = w.0

abbrev view : Host → View
view w = (destroyed 7 ∷ [], some 5)

is_empty-nil : (s : Bytes) → is_empty s ≡ true → s ≡ []
is_empty-nil [] e = refl
is_empty-nil (b ∷ bs) e = absurd (cc)

tape-IsSource : IsSource tape Any Any unread
tape-IsSource = record {
  plain_zero = tt;
  receives = λ n flags w fits plain v. record {
    keeps = tt;
    returns = tt;
    consumes = sym (take-append-drop (portion n) w.0);
    within = λ h. ground (arith, length-take (portion n) w.0);
  };
  eof_drained = λ w v e. is_empty-nil w.0 e;
}

tape-HasProgress : HasProgress tape Any
tape-HasProgress n ([], ds) t v going h e = absurd (cc)
tape-HasProgress n (b ∷ bs, ds) t v going h e = some_portion (portion n) (ground arith) e
  where
    some_portion : (k : ℕ) → 0 < k → read k (b ∷ bs, ds) ≢ (ok [], t)
    some_portion (suc k) h e = cc
    some_portion zero h e = absurd (omega arith)

tape-NeverThrows : NeverThrows tape Any
tape-NeverThrows n w x v e = cc

tape-IsSilentReader : IsSilentReader tape deeds view
tape-IsSilentReader n w = (refl, refl)

tape-IsClosable : IsClosable tape deeds view
tape-IsClosable = record { shuts = λ w. record { returns = refl; logs = refl }; serves = λ w. refl }

runtime-IsLogged : IsLogged runtime deeds view
runtime-IsLogged = record {
  dequeues = λ srv c w. record { returns = refl; logs = refl };
  dequeue_same = λ srv c w. refl;
  locks = λ c w. record { returns = refl; logs = refl };
  lock_same = λ c w. refl;
  destroys = λ c w. record { returns = refl; logs = refl };
}

runtime-KeepsReadable : KeepsReadable runtime Any
runtime-KeepsReadable = record { dequeues = λ srv c w v. tt; locks = λ c w v. tt }

abbrev four_of_six : RangeReader Host
four_of_six = range_reader 1 (1 ∷ 2 ∷ 3 ∷ 4 ∷ 5 ∷ 6 ∷ [], []) 4 true

four-InRange : InRange Any four_of_six
four-InRange = record { inner = tt; before_end = omega arith; fits = omega arith }

range_shutdown_returns_example :
    ((shutdown tape runtime 9 four_of_six).0 ≡ ok tt)
    × ((shutdown tape runtime 9 four_of_six).1.wrapped.1
        ≡ (decorated_view view four_of_six).0 ++ [])
range_shutdown_returns_example =
    range_shutdown_returns tape tape-IsSource tape-HasProgress tape-NeverThrows tape-IsSilentReader
      runtime runtime-IsLogged tape-IsClosable runtime-KeepsReadable 9 four_of_six four-InRange
      (omega arith)
