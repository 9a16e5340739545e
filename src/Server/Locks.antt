-- ===== src/Server/Locks.antt =====
-- The count of read locks: each lock that the server takes is one that the closure behind it gives
-- back.
use libsiot.Base.{ℕ, suc, ◌+◌, ◌≡◌, refl, ap, ◌∙◌, List, [], ◌∷◌, ◌++◌, if◌then◌else◌, ◌==◌, arith}
use libsiot.Server.{
  Server, Effect, Task, Callback, guarded, bare, shut, connection_failed, read_lock, unlock, ran,
}
use libsiot.Server.Frame.{IsFrame, IsNeutral, IsUnguarded}

-- The locks taken on `c`, the locks given back, and the queued closures that will give one back.
abbrev pub taken : ℕ → List Effect → ℕ
taken c [] = 0
taken c (read_lock d ∷ es) = if d == c then suc (taken c es) else taken c es
taken c (e ∷ es) = taken c es

abbrev pub given_back : ℕ → List Effect → ℕ
given_back c [] = 0
given_back c (unlock d ∷ es) = if d == c then suc (given_back c es) else given_back c es
given_back c (e ∷ es) = given_back c es

abbrev pub owed : ℕ → List Task → ℕ
owed c [] = 0
owed c (guarded f d ∷ ts) = if d == c then suc (owed c ts) else owed c ts
owed c (t ∷ ts) = owed c ts

abbrev pub IsBalanced : ℕ → Server → Type 0
IsBalanced c s = taken c s.log ≡ given_back c s.log + owed c s.tasks

module _ (c : ℕ) where
  -- A closure that leaves the queue and runs.
  pub owed-split :
      (before after : List Task) (t : Task)
      → owed c (before ++ t ∷ after) ≡ owed c (t ∷ before ++ after)
  owed-split [] after t = refl
  owed-split (guarded f d ∷ ts) after (guarded g e) =
      ground (arith, owed-split ts after (guarded g e))
  owed-split (guarded f d ∷ ts) after (bare g e) = ground (arith, owed-split ts after (bare g e))
  owed-split (guarded f d ∷ ts) after (shut e) = ground (arith, owed-split ts after (shut e))
  owed-split (bare f d ∷ ts) after (guarded g e) = owed-split ts after (guarded g e)
  owed-split (bare f d ∷ ts) after (bare g e) = owed-split ts after (bare g e)
  owed-split (bare f d ∷ ts) after (shut e) = owed-split ts after (shut e)
  owed-split (shut d ∷ ts) after (guarded g e) = owed-split ts after (guarded g e)
  owed-split (shut d ∷ ts) after (bare g e) = owed-split ts after (bare g e)
  owed-split (shut d ∷ ts) after (shut e) = owed-split ts after (shut e)

  pub unguarded :
      (before after : List Task) (t : Task)
      → IsUnguarded t
      → owed c (before ++ t ∷ after) ≡ owed c (before ++ after)
  unguarded before after (bare f d) n = owed-split before after (bare f d)
  unguarded before after (shut d) n = owed-split before after (shut d)
  unguarded before after (guarded f d) n = absurd n

  emits :
      (e : Effect) (s : Server)
      → IsNeutral e
      → IsBalanced c s
      → IsBalanced c (record s { log = e ∷ s.log })
  emits (read_lock d) s n h = absurd n
  emits (unlock d) s n h = absurd n
  emits (connection_failed m) s n h = h
  emits e s n h = h

  queues :
      (t : Task) (s : Server)
      → IsUnguarded t
      → IsBalanced c s
      → IsBalanced c (record s { tasks = t ∷ s.tasks })
  queues (guarded f d) s n h = absurd n
  queues (bare f d) s n h = h
  queues (shut d) s n h = h

  locks :
      (f : Callback) (d : ℕ) (s : Server)
      → IsBalanced c s
      → IsBalanced c (record s { tasks = guarded f d ∷ s.tasks; log = read_lock d ∷ s.log })
  locks f d s h = ground arith

  finishes :
      (before after : List Task) (f : Callback) (d : ℕ) (s : Server)
      → s.tasks ≡ before ++ guarded f d ∷ after
      → IsBalanced c s
      → IsBalanced c (record s { tasks = before ++ after; log = unlock d ∷ ran f d ∷ s.log })
  finishes before after f d s e h =
      let was = ap (owed c) e in ground (arith, owed-split before after (guarded f d))

  pub IsBalanced-IsFrame : IsFrame (IsBalanced c)
  IsBalanced-IsFrame = record {
    calm = record {
      shrinks = record {
        emits = emits;
        queues = λ t s n e h. queues t s n h;
        removes = λ k s h. h;
        dequeues = λ before after t s n e h.
            h ∙ ap (λ k. given_back c s.log + k) (ap (owed c) e ∙ unguarded before after t n);
      };
      locks = λ f d s e h. locks f d s h;
      registers = λ k v s h. h;
      enters = λ k s e h. h;
    };
    finishes = finishes;
  }
