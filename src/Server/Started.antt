-- ===== src/Server/Started.antt =====
-- What a server is that was made.
use tiny_http.Prelude.{
  ◌≡◌, ◌↔◌, refl, ap, sym, subst, false, [], Option, none, some, Result, ok, err,
}
use tiny_http.Io.{Fault, io, panic}
use tiny_http.Sockets.Platform.{Platform}
use tiny_http.Sockets.Connection.{bind, local_addr}
use tiny_http.Ssl.Shared.{Failure, Machine}
use tiny_http.Server.{no_messages}
use tiny_http.Server.Start.{
  SslConfig, Making, continued, as_failure, asked, returned, wrap, Feature, SslContext, ssl_context,
  ServerConfig, Server, Accepting, from_listener, new,
}
use tiny_http.Util.MessagesQueue.{with_capacity}

continued_ok :
    {M A B : Type 0} (f : A → Making M B) (r : Result Failure A × M) (b : B) (m : M)
    → continued f r ≡ (ok b, m)
    → (a : A) × (r.0 ≡ ok a) × (f a r.1 ≡ (ok b, m))
continued_ok f (ok a, m') b m e = (a, refl, e)
continued_ok f (err x, m') b m e = let broken : err x ≡ ok b = ap (λ z. z.0) e in absurd cc

as_failure-ok : {A : Type 0} (r : Result Fault A) (a : A) → as_failure r ≡ ok a → r ≡ ok a
as_failure-ok (ok b) a e = let same : b ≡ a = cc in ap ok same
as_failure-ok (err (io x)) a e = absurd cc
as_failure-ok (err panic) a e = absurd cc

pair : {A B : Type 0} (r : A × B) (a : A) (b : B) → r.0 ≡ a → r.1 ≡ b → r ≡ (a, b)
pair r a b h k = rw (h, k) refl

ok_inj : {A : Type 0} {a b : A} → ◌≡◌ {A = Result Failure A} (ok a) (ok b) → a ≡ b
ok_inj e = cc

wrap-some :
    {A : Type 0} (r : Result Failure A) (o : Option A) → wrap r ≡ ok o → (a : A) × (o ≡ some a)
wrap-some (ok a) o e = (a, sym (ok_inj e))
wrap-some (err x) o e = absurd cc

module _ (platform : Platform) (T : Type 0) where
  -- A TLS context there is exactly if the configuration has one.
  context-same :
      (tls : Feature platform T) (config : Option SslConfig)
      (ssl : Option (SslContext platform T tls))
      → ssl_context platform T tls config ≡ ok ssl
      → (ssl ≡ none) ↔ (config ≡ none)
  unfolding ssl_context
  context-same tls none ssl e = let same : none ≡ ssl = ok_inj e in (λ _. refl, λ _. sym same)
  context-same none (some c) ssl e = absurd cc
  context-same (some i) (some c) ssl e =
      let (context, made) = wrap-some (i.from_pem c.certificate c.private_key) ssl e in
      (λ h. absurd cc, λ h. absurd cc)

  pub record Starts (tls : Feature platform T) {Rq : Type 0} (config : ServerConfig platform T)
      (m m' : Machine platform.W T) (s : Server platform T Rq) (a : Accepting platform T tls)
      : Type 0 where
    pub running : s.close ≡ false
    pub empty : s.messages ≡ []
    pub bound : (bind platform config.addr m.os).0 ≡ ok a.server
    pub address :
        local_addr platform a.server (bind platform config.addr m.os).1
        ≡ (ok s.listening_addr, m'.os)
    pub encrypted : (a.ssl ≡ none) ↔ (config.ssl ≡ none)
    pub context : ssl_context platform T tls config.ssl ≡ ok a.ssl

  -- If `new` returns a server, then it is not closed, its queue is empty, its thread listens on
  -- what was bound to the address of the configuration, the address that it tells is the one that
  -- the listener tells, and it speaks TLS, with a context made of the configuration, exactly if the
  -- configuration asks for it.
  pub new-Starts :
      (tls : Feature platform T) {Rq : Type 0} (config : ServerConfig platform T)
      (m m' : Machine platform.W T) (s : Server platform T Rq) (a : Accepting platform T tls)
      → new platform T tls Rq config m ≡ (ok (s, a), m')
      → Starts tls config m m' s a
  unfolding new from_listener no_messages with_capacity
  new-Starts tls {Rq} config m m' s a e =
      let (l, bound, e1) =
        continued_ok (λ l. from_listener platform T tls Rq l config.ssl)
          (asked (bind platform config.addr) m) (s, a) m' e in
      let (address, located, e2) = continued_ok _ (asked (local_addr platform l) _) (s, a) m' e1 in
      let (ssl, context, e3) =
        continued_ok _ (returned (ssl_context platform T tls config.ssl) _) (s, a) m' e2 in
      subst (λ p. Starts tls config m m' p.0 p.1) (ok_inj (ap (λ z. z.0) e3))
        (record {
          running = refl;
          empty = refl;
          bound = as_failure-ok (bind platform config.addr m.os).0 l bound;
          address =
              pair (local_addr platform l (bind platform config.addr m.os).1) (ok address) m'.os
                (as_failure-ok _ address located) (ap (λ z. z.1.os) e3);
          encrypted = context-same tls config.ssl ssl context;
          context = context;
        })
