-- ===== src/Main/Keys.antt =====
-- The certificate that the servers of one process use: src/ssl.c keeps one pair for all of them.
use disqueue.Base.{true, Option, none, some, Bytes, ◌≡◌, refl, sym, ap, subst, ◌∙◌, arith}
use disqueue.Config.{ConfigServer}
use disqueue.Ssl.{
  SslContext, Openssl, ssl_unset, ssl_setup, ssl_load_certificate, ssl_load_privatekey,
}
use disqueue.Main.{secure, load_keys}

-- The context with a whole pair.
abbrev pub paired : Bytes → Bytes → SslContext
paired x y = record {
  ssl_initialised = true;
  keypair_loaded = 2;
  ssl_ctx = some (record { certificate = some x; privatekey = some y });
}

load_keys-paired :
    (o : Openssl) (x y : Bytes) (f k : Option Bytes)
    → load_keys o f k (paired x y) ≡ (true, paired x y)
unfolding ssl_setup ssl_load_certificate ssl_load_privatekey
load_keys-paired o x y none k = refl
load_keys-paired o x y (some f) none = refl
load_keys-paired o x y (some f) (some k) = refl

load_keys-first :
    (o : Openssl) (x y : Bytes) (c : SslContext)
    → load_keys o (some x) (some y) ssl_unset ≡ (true, c)
    → c ≡ paired x y
unfolding ssl_setup ssl_load_certificate ssl_load_privatekey
load_keys-first o x y c e = ground arith

-- Where the first server with a certificate and a private key has loaded them into a new context,
-- the context holds that pair, and whatever another server names is accepted and leaves the context
-- as it is.
pub secure-first :
    (o o' : Openssl) (server other : ConfigServer) (x y : Bytes) (c : SslContext)
    → server.certificate ≡ some x
    → server.privatekey ≡ some y
    → secure o server ssl_unset ≡ (true, c)
    → (c ≡ paired x y) × (secure o' other c ≡ (true, c))
unfolding secure
secure-first o o' server other x y c f k e =
    let first : c ≡ paired x y = load_keys-first o x y c (
      sym (
        ap (λ a. load_keys o a server.privatekey ssl_unset) f
        ∙ ap (λ b. load_keys o (some x) b ssl_unset) k)
      ∙ e) in
    (
      first,
      subst (λ d. load_keys o' other.certificate other.privatekey d ≡ (true, d)) (sym first)
          (load_keys-paired o' x y other.certificate other.privatekey),
    )
