-- ===== src/OpenSsl/Life.antt =====
-- The contexts and handles that an encrypted connection takes from OpenSSL, and gives back.
use libsiot.Base.{
  ℕ, suc, ◌-◌, ◌≡◌, ◌⊎◌, inl, inr, ap, ◌∙◌, Bool, true, false, Option, String, Result, ok, throws,
  undefined, running, Action, ◌>>◌, if◌then◌else◌, arith, refl,
}
use libsiot.Base.Int.{ℤ, pos, negsuc}
use libsiot.SslContext.{ServerSslContext, get_cert_file_path, get_private_key_file_path}
use libsiot.UnixSocket.{Sockets, unix_socket}
use libsiot.OpenSsl.{
  OpenSsl, SslConnection, positive, checked, new_handle, failure, handshake, ssl_connection,
  close_handle,
}

-- How many contexts and handles the program holds. `SSL_CTX_new` and `SSL_new`, where they succeed,
-- make one, `SSL_CTX_free` and `SSL_free` take one back, and the other functions leave them alone.
pub record CountsObjects {W : Type 0} (lib : OpenSsl W) (contexts handles : W → ℕ) : Type 0 where
  pub ctx_new :
      (w : W)
      → (contexts (lib.ctx_new w).1 ≡ (if (lib.ctx_new w).0 then suc (contexts w) else contexts w))
        × (handles (lib.ctx_new w).1 ≡ handles w)
  pub certificate :
      (file : String) (w : W)
      → (contexts (lib.use_certificate_file file w).1 ≡ contexts w)
        × (handles (lib.use_certificate_file file w).1 ≡ handles w)
  pub private_key :
      (file : String) (w : W)
      → (contexts (lib.use_private_key_file file w).1 ≡ contexts w)
        × (handles (lib.use_private_key_file file w).1 ≡ handles w)
  pub ssl_new :
      (w : W)
      → (contexts (lib.ssl_new w).1 ≡ contexts w)
        × (handles (lib.ssl_new w).1 ≡ (if (lib.ssl_new w).0 then suc (handles w) else handles w))
  pub queued_error :
      (w : W)
      → (contexts (lib.queued_error w).1 ≡ contexts w)
        × (handles (lib.queued_error w).1 ≡ handles w)
  pub set_fd :
      (fd : ℕ) (w : W)
      → (contexts (lib.set_fd fd w).1 ≡ contexts w) × (handles (lib.set_fd fd w).1 ≡ handles w)
  pub accept :
      (w : W) → (contexts (lib.accept w).1 ≡ contexts w) × (handles (lib.accept w).1 ≡ handles w)
  pub shutdown :
      (w : W) → (contexts (lib.shutdown w) ≡ contexts w) × (handles (lib.shutdown w) ≡ handles w)
  pub ssl_free :
      (w : W)
      → (contexts (lib.ssl_free w) ≡ contexts w) × (handles (lib.ssl_free w) ≡ handles w - 1)
  pub ctx_free :
      (w : W)
      → (contexts (lib.ctx_free w) ≡ contexts w - 1) × (handles (lib.ctx_free w) ≡ handles w)

module _ {W : Type 0} (net : Sockets W) (lib : OpenSsl W) {contexts handles : W → ℕ}
    (counts : CountsObjects lib contexts handles) where
  -- A handshake that began with `c` contexts and `h` handles.
  abbrev Ends : ℕ → ℕ → Result (Unit {0}) × W → Type 0
  Ends c h (ok _, w) = (contexts w ≡ suc c) × (handles w ≡ suc h)
  Ends c h (throws x, w) = (contexts w ≡ suc c) × ((handles w ≡ h) ⊎ (handles w ≡ suc h))
  Ends c h (undefined, w) = ⊥
  Ends c h (running, w) = ⊥

  -- A step that is tested by `<= 0`, and what follows it.
  behind_step :
      (c h : ℕ) (prefix : String) (good : Bool) (ret : ℤ) (k : Action W (Unit {0})) (w w' : W)
      → Ends c h (throws (failure net lib prefix ret), w')
      → Ends c h (k w')
      → Ends c h
          (((λ _. if good then (ok tt, w') else (throws (failure net lib prefix ret), w')) >> k) w)
  behind_step c h prefix true ret k w w' bad good = good
  behind_step c h prefix false ret k w w' bad good = bad

  accepted :
      (c h : ℕ) (w : W)
      → contexts w ≡ suc c
      → handles w ≡ suc h
      → Ends c h (checked net lib "SSL_accept:" lib.accept w)
  accepted c h w a b = go (positive (lib.accept w).0)
    where
      go :
          (good : Bool)
          → Ends c h (
              if good
              then (ok tt, (lib.accept w).1)
              else (throws (failure net lib "SSL_accept:" (lib.accept w).0), (lib.accept w).1))
      go true = ((counts.accept w).0 ∙ a, (counts.accept w).1 ∙ b)
      go false = ((counts.accept w).0 ∙ a, inr ((counts.accept w).1 ∙ b))

  with_fd :
      (c h fd : ℕ) (w : W)
      → contexts w ≡ suc c
      → handles w ≡ suc h
      → Ends c h (
          (checked net lib "SSL_set_fd:" (lib.set_fd fd)
              >> checked net lib "SSL_accept:" lib.accept)
            w)
  with_fd c h fd w a b =
      let same = counts.set_fd fd w in
      behind_step c h "SSL_set_fd:" (positive (lib.set_fd fd w).0) (lib.set_fd fd w).0
        (checked net lib "SSL_accept:" lib.accept) w (lib.set_fd fd w).1
        (same.0 ∙ a, inr (same.1 ∙ b)) (accepted c h (lib.set_fd fd w).1 (same.0 ∙ a) (same.1 ∙ b))

  with_handle :
      (c h fd : ℕ) (w : W)
      → contexts w ≡ suc c
      → handles w ≡ h
      → Ends c h (
          (new_handle net lib
              >> (checked net lib "SSL_set_fd:" (lib.set_fd fd)
                  >> checked net lib "SSL_accept:" lib.accept))
            w)
  with_handle c h fd w a b = go (lib.ssl_new w).0 (counts.ssl_new w).1
    where
      v : W
      v = (lib.ssl_new w).1

      go :
          (made : Bool)
          → handles v ≡ (if made then suc (handles w) else handles w)
          → Ends c h (
              ((λ _. if made then (ok tt, v) else (
                throws (failure net lib "SSL_set_fd:" (lib.queued_error v).0),
                (lib.queued_error v).1,
              ))
                  >> (checked net lib "SSL_set_fd:" (lib.set_fd fd)
                      >> checked net lib "SSL_accept:" lib.accept))
                w)
      go true e = with_fd c h fd v ((counts.ssl_new w).0 ∙ a) (e ∙ ap suc b)
      go false e = (
        (counts.queued_error v).0 ∙ (counts.ssl_new w).0 ∙ a,
        inl ((counts.queued_error v).1 ∙ e ∙ b),
      )

  -- The steps of the constructor behind the context.
  abbrev with_context : ServerSslContext → ℕ → Action W (Unit {0})
  with_context context fd =
      checked net lib "SSL_CTX_use_certificate_file:"
        (lib.use_certificate_file (get_cert_file_path context))
      >> (checked net lib "SSL_CTX_use_PrivateKey_file:"
            (lib.use_private_key_file (get_private_key_file_path context))
          >> (new_handle net lib
              >> (checked net lib "SSL_set_fd:" (lib.set_fd fd)
                  >> checked net lib "SSL_accept:" lib.accept)))

  with_context-Ends :
      (context : ServerSslContext) (c h fd : ℕ) (w : W)
      → contexts w ≡ suc c
      → handles w ≡ h
      → Ends c h (with_context context fd w)
  with_context-Ends context c h fd w a b =
      let w2 = (lib.use_certificate_file (get_cert_file_path context) w).1 in
      let w3 = (lib.use_private_key_file (get_private_key_file_path context) w2).1 in
      let second = counts.certificate (get_cert_file_path context) w in
      let third = counts.private_key (get_private_key_file_path context) w2 in
      let rest =
        new_handle net lib
        >> (checked net lib "SSL_set_fd:" (lib.set_fd fd)
            >> checked net lib "SSL_accept:" lib.accept) in
      let key =
        checked net lib "SSL_CTX_use_PrivateKey_file:"
          (lib.use_private_key_file (get_private_key_file_path context)) in
      behind_step c h "SSL_CTX_use_certificate_file:"
        (positive (lib.use_certificate_file (get_cert_file_path context) w).0)
        (lib.use_certificate_file (get_cert_file_path context) w).0 (key >> rest) w w2
        (second.0 ∙ a, inl (second.1 ∙ b))
        (behind_step c h "SSL_CTX_use_PrivateKey_file:"
          (positive (lib.use_private_key_file (get_private_key_file_path context) w2).0)
          (lib.use_private_key_file (get_private_key_file_path context) w2).0 rest w2 w3
          (third.0 ∙ second.0 ∙ a, inl (third.1 ∙ second.1 ∙ b))
          (with_handle c h fd w3 (third.0 ∙ second.0 ∙ a) (third.1 ∙ second.1 ∙ b)))

  -- With a context; or the outcome is undefined, as the null pointer is used.
  abbrev Made : W → Result (Unit {0}) × W → Type 0
  Made w o =
      (((lib.ctx_new w).0 ≡ true) × Ends (contexts w) (handles w) o)
      ⊎ (((lib.ctx_new w).0 ≡ false) × (o.0 ≡ undefined))

  handshake-Made :
      (context : ServerSslContext) (fd : ℕ) (w : W) → Made w (handshake net lib context fd w)
  unfolding handshake
  handshake-Made context fd w = go (lib.ctx_new w).0 (counts.ctx_new w).0
    where
      v : W
      v = (lib.ctx_new w).1

      go :
          (made : Bool)
          → contexts v ≡ (if made then suc (contexts w) else contexts w)
          → ((made ≡ true)
              × Ends (contexts w) (handles w) (
                  ((λ _. if made then (ok tt, v) else (undefined, v)) >> with_context context fd)
                    w))
            ⊎ ((made ≡ false)
                × ((((λ _. if made then (ok tt, v) else (undefined, v)) >> with_context context fd)
                      w).0
                    ≡ undefined))
      go true e =
          inl (refl, with_context-Ends context (contexts w) (handles w) fd v e (counts.ctx_new w).1)
      go false e = inr (refl, refl)

  close_handle-counts :
      (w : W)
      → (contexts (close_handle net lib w) ≡ contexts w - 1)
        × (handles (close_handle net lib w) ≡ handles w - 1)
  unfolding close_handle
  close_handle-counts w = go (lib.get_shutdown w)
    where
      closed :
          (v : W)
          → (contexts (lib.ctx_free (lib.ssl_free v)) ≡ contexts v - 1)
            × (handles (lib.ctx_free (lib.ssl_free v)) ≡ handles v - 1)
      closed v = (
        (counts.ctx_free (lib.ssl_free v)).0 ∙ ap (λ n. n - 1) (counts.ssl_free v).0,
        (counts.ctx_free (lib.ssl_free v)).1 ∙ (counts.ssl_free v).1,
      )

      go :
          (state : ℤ)
          → let v =
              lib.ctx_free (lib.ssl_free (elim state [ pos n ↦ lib.shutdown w | negsuc n ↦ w ])) in
            (contexts v ≡ contexts w - 1) × (handles v ≡ handles w - 1)
      go (pos n) = (
        (closed (lib.shutdown w)).0 ∙ ap (λ n. n - 1) (counts.shutdown w).0,
        (closed (lib.shutdown w)).1 ∙ ap (λ n. n - 1) (counts.shutdown w).1,
      )
      go (negsuc n) = closed w

  -- How a connection that was made from `w` on ends.
  abbrev pub LeavesObjects : W → Result (SslConnection W) × W → Type 0
  LeavesObjects w (ok c, w') =
      let closed = close_handle net lib c.base.system in
      ((lib.ctx_new w).0 ≡ true) × (contexts closed ≡ contexts w) × (handles closed ≡ handles w)
  LeavesObjects w (throws x, w') =
      ((lib.ctx_new w).0 ≡ true)
      × (contexts w' ≡ suc (contexts w))
      × ((handles w' ≡ handles w) ⊎ (handles w' ≡ suc (handles w)))
  LeavesObjects w (undefined, w') = (lib.ctx_new w).0 ≡ false
  LeavesObjects w (running, w') = ⊥

  -- The constructor of an encrypted connection comes back, by the object or by an exception,
  -- exactly if `SSL_CTX_new` makes a context; otherwise its behaviour is undefined, as it goes on
  -- with the null pointer. If it makes the object, the calls of `Shutdown` on the handle and the
  -- context leave as many contexts and handles as there were before the constructor. If it throws,
  -- at whichever step, one context more than before is left, and as many handles or one more.
  pub ssl_connection-LeavesObjects :
      (self socketid peer : ℕ) (srv : Option ℕ) (context : ServerSslContext) (w : W)
      → LeavesObjects w (ssl_connection net lib self srv socketid peer context w)
  unfolding ssl_connection
  ssl_connection-LeavesObjects self socketid peer srv context w =
      go (handshake net lib context socketid w) (handshake-Made context socketid w)
    where
      made : Action W (SslConnection W)
      made w' = (
        ok (record {
          base = record (unix_socket net self srv socketid peer w) { system = w' };
          blocking = true;
          ssl_last_use = net.time w;
        }),
        w',
      )

      go : (o : Result (Unit {0}) × W) → Made w o → LeavesObjects w (((λ _. o) >> made) w)
      go (ok tt, w') (inl (new, e)) =
          let counted = close_handle-counts w' in
          (new, omega (arith, e.0, counted.0), omega (arith, e.1, counted.1))
      go (throws x, w') (inl (new, e)) = (new, e.0, e.1)
      go (undefined, w') (inl (new, e)) = absurd e
      go (running, w') (inl (new, e)) = absurd e
      go (ok tt, w') (inr (null, e)) = absurd (cc)
      go (throws x, w') (inr (null, e)) = absurd (cc)
      go (undefined, w') (inr (null, e)) = null
      go (running, w') (inr (null, e)) = absurd (cc)
