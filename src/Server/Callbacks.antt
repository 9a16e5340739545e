-- ===== src/Server/Callbacks.antt =====
-- `ConnectionCallback`: the object that a program gives to a server, and what it gets to hear.
use libsiot.Base.{ℕ, ◌≡◌, refl, ap, Bool, true, false, String, List, [], ◌∷◌, if◌then◌else◌}
use libsiot.Server.{
  callback_reset, Effect, Callback, Method, established, terminated, error, data_ready,
  connection_failed, accept_errors, client_connection_errors, epoll_errors, read_after_close,
  notify, reaper_added, epoll_add, epoll_delete, read_lock, unlock, shutdown, ran,
}

-- The methods, over the program's state.
pub record ConnectionCallback (S : Type 0) : Type 0 where
  pub add_decorators : ℕ → S → ℕ × S
  pub on_established : ℕ → S → S
  pub on_failed : String → S → S
  pub on_data_ready : ℕ → S → S
  pub on_terminated : ℕ → S → S
  pub on_error : ℕ → S → S

module _ {S : Type 0} where
  -- The base class, with the two methods that a program has to define.
  unfoldable pub base_callback : (ℕ → S → S) → (ℕ → S → S) → ConnectionCallback S
  base_callback on_established on_data_ready = record {
    add_decorators = λ conn s. (conn, s);
    on_established = on_established;
    on_failed = λ message s. s;
    on_data_ready = on_data_ready;
    on_terminated = λ conn s. s;
    on_error = λ conn s. s;
  }

  -- The call of a method, by its closure.
  abbrev pub call_method : ConnectionCallback S → Method → ℕ → S → S
  call_method cb established = cb.on_established
  call_method cb terminated = cb.on_terminated
  call_method cb error = cb.on_error
  call_method cb data_ready = cb.on_data_ready

  -- What a program makes of the calls of a server, the newest first.
  unfoldable pub hear : ConnectionCallback S → List Effect → S → S
  hear cb [] s = s
  hear cb (connection_failed message ∷ es) s = cb.on_failed message (hear cb es s)
  hear cb (ran f conn ∷ es) s = call_method cb f.method conn (hear cb es s)
  hear cb (e ∷ es) s = hear cb es s

-- The calls that a program with the base class's methods has defined.
abbrev pub is_defined : Method → Bool
is_defined established = true
is_defined terminated = false
is_defined error = false
is_defined data_ready = true

abbrev pub defined_calls : List Effect → List Effect
defined_calls [] = []
defined_calls (ran f conn ∷ es) =
    if is_defined f.method then ran f conn ∷ defined_calls es else defined_calls es
defined_calls (e ∷ es) = defined_calls es

heard :
    {S : Type 0} (f g : ℕ → S → S) (c : Callback) (conn : ℕ) (es : List Effect) (s : S) (m : Method)
    → c.method ≡ m
    → hear (base_callback f g) es s ≡ hear (base_callback f g) (defined_calls es) s
    → hear (base_callback f g) (ran c conn ∷ es) s
      ≡ hear (base_callback f g) (defined_calls (ran c conn ∷ es)) s
unfolding hear base_callback
heard f g c conn es s established e ih = simp e (ap (f conn) ih)
heard f g c conn es s terminated e ih = simp e ih
heard f g c conn es s error e ih = simp e ih
heard f g c conn es s data_ready e ih = simp e (ap (g conn) ih)

-- A program that defines no more methods than it has to gets to hear of new connections and of data
-- alone: failures, errors and terminations, of which a server tells, pass it by.
pub hear-defined_calls :
    {S : Type 0} (f g : ℕ → S → S) (es : List Effect) (s : S)
    → hear (base_callback f g) es s ≡ hear (base_callback f g) (defined_calls es) s
unfolding hear base_callback
hear-defined_calls f g [] s = refl
hear-defined_calls f g (ran c conn ∷ es) s =
    heard f g c conn es s c.method refl (hear-defined_calls f g es s)
hear-defined_calls f g (connection_failed m ∷ es) s = hear-defined_calls f g es s
hear-defined_calls f g (accept_errors m ∷ es) s = hear-defined_calls f g es s
hear-defined_calls f g (client_connection_errors m ∷ es) s = hear-defined_calls f g es s
hear-defined_calls f g (epoll_errors m ∷ es) s = hear-defined_calls f g es s
hear-defined_calls f g (read_after_close ∷ es) s = hear-defined_calls f g es s
hear-defined_calls f g (notify ∷ es) s = hear-defined_calls f g es s
hear-defined_calls f g (reaper_added ∷ es) s = hear-defined_calls f g es s
hear-defined_calls f g (epoll_add fd ∷ es) s = hear-defined_calls f g es s
hear-defined_calls f g (epoll_delete fd ∷ es) s = hear-defined_calls f g es s
hear-defined_calls f g (read_lock c ∷ es) s = hear-defined_calls f g es s
hear-defined_calls f g (unlock c ∷ es) s = hear-defined_calls f g es s
hear-defined_calls f g (shutdown c ∷ es) s = hear-defined_calls f g es s
hear-defined_calls f g (callback_reset c ∷ es) s = hear-defined_calls f g es s
