-- ===== src/Auth/Methods.antt =====
-- src/auth.c: the methods of authentication, of which there is one, and the object of a method.
use disqueue.Base.{
  ℕ, ◌==◌, Bool, true, false, Option, none, some, List, [], ◌∷◌, Bytes, codes, strcase_eq,
  if◌then◌else◌, Result, ok, ◌>>=◌,
}
use disqueue.Json.{Calls}
use disqueue.Auth.{
  AuthPlaintext, Decoder, Files, auth_plaintext_new_, auth_plaintext_set_password_file_,
  auth_plaintext_verify_,
}

pub data AuthMethod : Type 0 where
  auth_plaintext : AuthMethod

-- `void *` is the data of the one method.
pub record AuthMethodCallbacks : Type 0 where
  pub auth_new : Bool → Option AuthPlaintext
  pub auth_verify : Files → Decoder → Bytes → AuthPlaintext → Result (Bool × AuthPlaintext)
  pub auth_set_password_file : Option (Bytes → Bool → AuthPlaintext → Bool × AuthPlaintext)

pub record AuthMethods : Type 0 where
  pub name : Bytes
  pub method : AuthMethod
  pub callbacks : AuthMethodCallbacks

-- `address` is that of the object.
pub record Auth : Type 0 where
  pub address : ℕ
  pub methoddata : AuthPlaintext
  pub callbacks : AuthMethodCallbacks

unfoldable pub auth_methods_list : List AuthMethods
unfolding auth_plaintext_new_ auth_plaintext_set_password_file_ auth_plaintext_verify_
auth_methods_list =
    record {
      name = codes "plaintext";
      method = auth_plaintext;
      callbacks = record {
        auth_new = auth_plaintext_new_;
        auth_verify = auth_plaintext_verify_;
        auth_set_password_file = some auth_plaintext_set_password_file_;
      };
    }
    ∷ []

-- The address is that of the new object. The calls: calloc, and that of the method's auth_new.
unfoldable pub auth_new_ : ℕ → Calls → AuthMethods → Option Auth
auth_new_ address calls method =
    if calls 0
    then elim (method.callbacks.auth_new (calls 1)) [
      | none ↦ none
      | some made ↦
          some (record { address = address; methoddata = made; callbacks = method.callbacks })
    ]
    else none

-- The loop over the list, with the test that it makes.
unfoldable pub method_search : (AuthMethods → Bool) → ℕ → Calls → List AuthMethods → Option Auth
unfolding auth_new_
method_search p address calls [] = none
method_search p address calls (m ∷ ms) =
    let rest = method_search p address calls ms in if p m then auth_new_ address calls m else rest

unfoldable pub auth_method_from_string : ℕ → Calls → Bytes → Option Auth
unfolding method_search auth_methods_list strcase_eq
auth_method_from_string address calls method =
    method_search (λ m. strcase_eq m.name method) address calls auth_methods_list

abbrev same_method : AuthMethod → AuthMethod → Bool
same_method auth_plaintext auth_plaintext = true

unfoldable pub auth_new : ℕ → Calls → AuthMethod → Option Auth
unfolding method_search auth_methods_list
auth_new address calls method =
    method_search (λ m. same_method method m.method) address calls auth_methods_list

abbrev with_data : Auth → Bool × AuthPlaintext → Bool × Auth
with_data auth (done, made) = (done, record auth { methoddata = made })

unfoldable pub auth_verify : Files → Decoder → Bytes → Auth → Result (Bool × Auth)
auth_verify files d header auth = do
  answer ← auth.callbacks.auth_verify files d header auth.methoddata
  ok (with_data auth answer)

-- The data that the objects have at one moment, by their addresses.
abbrev pub Auths : Type 0
Auths = ℕ → AuthPlaintext

-- What is outside while a header is verified.
pub record AuthOutside : Type 0 where
  pub files : Files
  pub decoder : Decoder

abbrev put_back : Auths → Bool × Auth → Bool × Auths
put_back s (done, auth) = (done, λ a. if a == auth.address then auth.methoddata else s a)

-- auth_verify on the object that a pointer leads to.
unfoldable pub auth_verify_at : AuthOutside → Bytes → Auth → Auths → Result (Bool × Auths)
unfolding auth_verify
auth_verify_at o header auth s = do
  answer ← auth_verify o.files o.decoder header (record auth { methoddata = s auth.address })
  ok (put_back s answer)

-- The second argument is whether strdup gets its memory.
unfoldable pub auth_set_password_file : Bytes → Bool → Auth → Bool × Auth
auth_set_password_file file mem auth = elim auth.callbacks.auth_set_password_file [
  | none ↦ (false, auth)
  | some set ↦ with_data auth (set file mem auth.methoddata)
]
