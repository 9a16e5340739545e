-- ===== src/Decorator.antt =====
-- What the three decorators share: the wrapped connection, the ownership flag, the base class's
-- part, and calls that are passed on.
pub mod Closing
pub mod Sink
use libsiot.Base.{
  ℕ, ◌≡◌, refl, Bool, true, Result, ok, throws, undefined, running, ClientConnectionException,
  Action, ◌>>=◌,
}
use libsiot.Connection.{Connection, Runtime, Object}

-- `self` is the address of the decorator; `own` holds the fields of its own class.
pub record Decorator (F S : Type 0) : Type 0 where
  pub self : ℕ
  pub is_shutdown_ : Bool
  pub wrapped : S
  pub owned : Bool
  pub own : F

module _ {F S : Type 0} where
  -- A call of a method of `wrapped_`.
  abbrev pub forward : {A : Type 0} → Action S A → Action (Decorator F S) A
  forward m d = let (r, s') = m d.wrapped in (r, record d { wrapped = s' })

  abbrev pub forward_runtime : Runtime S → Runtime (Decorator F S)
  forward_runtime rt = record {
    dequeue_connection = λ srv c. forward (rt.dequeue_connection srv c);
    defer_shutdown = λ srv c. forward (rt.defer_shutdown srv c);
    lock = λ c. forward (rt.lock c);
    destroy = λ c. forward (rt.destroy c);
  }

  -- The base class's view of a decorator whose `Shutdown` is given.
  abbrev pub decorator_object :
      Connection S → Action (Decorator F S) (Unit {0}) → Object (Decorator F S)
  decorator_object conn shutdown = record {
    self = λ d. d.self;
    is_shutdown_flag = λ d. d.is_shutdown_;
    mark_shutdown = λ d. record d { is_shutdown_ = true };
    virtual_get_server = λ d. conn.get_server d.wrapped;
    virtual_shutdown = shutdown;
  }

  -- The outcome of a chain that begins with a call of `wrapped_`, by the outcome of that call.
  pub forward-cases :
      {A B : Type 0} (P : Result B × Decorator F S → Type 0) (m : Action S A)
      (k : A → Action (Decorator F S) B) (d : Decorator F S)
      → ((a : A) (s' : S) → m d.wrapped ≡ (ok a, s') → P (k a (record d { wrapped = s' })))
      → ((e : ClientConnectionException) (s' : S)
          → m d.wrapped ≡ (throws e, s')
          → P (throws e, record d { wrapped = s' }))
      → ((s' : S) → m d.wrapped ≡ (undefined, s') → P (undefined, record d { wrapped = s' }))
      → ((s' : S) → m d.wrapped ≡ (running, s') → P (running, record d { wrapped = s' }))
      → P ((forward m >>= k) d)
  forward-cases {A} {B} P m k d f g h j = go (m d.wrapped) refl
    where
      go : (o : Result A × S) → m d.wrapped ≡ o → P ((forward (λ _. o) >>= k) d)
      go (ok a, s') e = f a s' e
      go (throws x, s') e = g x s' e
      go (undefined, s') e = h s' e
      go (running, s') e = j s' e
