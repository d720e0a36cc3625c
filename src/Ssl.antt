-- ===== src/Ssl.antt =====
-- src/ssl.c: the one OpenSSL context of the process, with the pair of files that it has loaded.
-- OpenSSL is a parameter: whether it makes a context, and whether it takes a file.
use disqueue.Base.{
  ℕ, suc, Bool, true, false, not, ◌||◌, Option, none, some, Bytes, ◌==◌, ltb, if◌then◌else◌,
}

-- The certificate and the private key that SSL_CTX uses.
pub record SslCtx : Type 0 where
  pub certificate : Option Bytes
  pub privatekey : Option Bytes

-- `ssl_ctx` is none where it is NULL or was freed.
pub record SslContext : Type 0 where
  pub ssl_initialised : Bool
  pub keypair_loaded : ℕ
  pub ssl_ctx : Option SslCtx

pub record Openssl : Type 0 where
  pub ctx_new : Bool
  pub use_certificate_file : Option SslCtx → Bytes → Bool
  pub use_privatekey_file : Option SslCtx → Bytes → Bool
  pub ssl_new : Bool

abbrev pub ssl_unset : SslContext
ssl_unset = record { ssl_initialised = false; keypair_loaded = 0; ssl_ctx = none }

unfoldable pub ssl_setup : Openssl → SslContext → Bool × SslContext
ssl_setup o c =
    if c.ssl_initialised
    then (true, c)
    else if o.ctx_new
    then (
      true,
      record {
        ssl_initialised = true;
        keypair_loaded = 0;
        ssl_ctx = some (record { certificate = none; privatekey = none });
      },
    )
    else (false, record c { ssl_ctx = none })

unfoldable pub ssl_destroy : SslContext → SslContext
ssl_destroy c = if c.ssl_initialised then ssl_unset else c

abbrev pub with_certificate : Bytes → Option SslCtx → Option SslCtx
with_certificate f none = none
with_certificate f (some x) = some (record x { certificate = some f })

abbrev pub with_privatekey : Bytes → Option SslCtx → Option SslCtx
with_privatekey f none = none
with_privatekey f (some x) = some (record x { privatekey = some f })

unfoldable pub ssl_load_certificate : Openssl → Bytes → SslContext → Bool × SslContext
ssl_load_certificate o filename c =
    if not (c.keypair_loaded == 0)
    then (true, c)
    else if o.use_certificate_file c.ssl_ctx filename
    then (
      true,
      record c {
        keypair_loaded = suc c.keypair_loaded;
        ssl_ctx = with_certificate filename c.ssl_ctx;
      },
    )
    else (false, c)

unfoldable pub ssl_load_privatekey : Openssl → Bytes → SslContext → Bool × SslContext
ssl_load_privatekey o filename c =
    if c.keypair_loaded == 2
    then (true, c)
    else if o.use_privatekey_file c.ssl_ctx filename
    then (
      true,
      record c {
        keypair_loaded = suc c.keypair_loaded;
        ssl_ctx = with_privatekey filename c.ssl_ctx;
      },
    )
    else (false, c)

-- The SSL object of a new connection, made from the context.
unfoldable pub ssl_create_connection : Openssl → SslContext → Option (Option SslCtx)
ssl_create_connection o c =
    if not c.ssl_initialised || ltb c.keypair_loaded 2
    then none
    else if o.ssl_new
    then some c.ssl_ctx
    else none

-- `openssl_socket` is what bufferevent_openssl_socket_new makes of it.
unfoldable pub ssl_create_bufferevent {ℓ} :
    {B : Type ℓ} → (Option SslCtx → Option B) → Openssl → SslContext → Option B
unfolding ssl_create_connection
ssl_create_bufferevent openssl_socket o c = elim (ssl_create_connection o c) [
  | none ↦ none
  | some ssl ↦ openssl_socket ssl
]
