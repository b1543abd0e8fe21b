-- ===== src/Kratos/Port.antt =====
-- `Client` of internal/kratos/client.go behind the services: whose identity a login by email finds.
use Prim.Native.String.{◌++◌}
use central_auth.Common.{◌≡◌, refl, sym, String, Bool, true, false, [], Option, some, arith}
use central_auth.Auth.{AuthService, google_login}
use central_auth.Ports.{KratosClient}
use central_auth.Http.{get}
use central_auth.Http.Query.{
  ampersand, split, has_ampersand, has_ampersand-append, is_plain, is_plain-append, read_parts,
  read_parts-cut,
}
use text.Mathlib.TextLemmas.{append_assoc}
use central_auth.Kratos.{
  Client, bare, create_identity, delete_session, delete_sessions, get_identity_by_email,
  get_session_id_by_token, email_query,
}

google_login-same :
    {W : Type 0} (s : AuthService W) (k : KratosClient W)
    → s.kratos_client ≡ some k
    → (e e' device_id : String) (remember_me : Bool) (user_agent ip : Option String) (w : W)
    → k.get_identity_by_email e w ≡ k.get_identity_by_email e' w
    → google_login s e device_id remember_me user_agent ip w
      ≡ google_login s e' device_id remember_me user_agent ip w
unfolding google_login
google_login-same s k wired e e' device_id remember_me user_agent ip w same =
    ground (arith, wired, same)

module _ {W : Type 0} (c : Client W) where
  unfoldable pub client : KratosClient W
  client = record {
    get_identity_by_email = get_identity_by_email c;
    delete_sessions = delete_sessions c;
    create_identity = create_identity c;
    get_session_id_by_token = get_session_id_by_token c;
    delete_session = delete_session c;
  }

  -- What Kratos documents of the list of identities: the parameters that it knows decide the answer,
  -- and it passes over the others. `reads` tells whether a part of a query has the name of a parameter
  -- that Kratos knows.
  pub record AnswersByParameters (reads : String → Bool) : Type 0 where
    pub answered_alike :
        (q q' : String)
        → is_plain q ≡ true
        → is_plain q' ≡ true
        → read_parts reads (split ampersand q) ≡ read_parts reads (split ampersand q')
        → (w : W)
        → c.http_client (bare get (c.admin_url ++ ("/admin/identities?" ++ q))) w
          ≡ c.http_client (bare get (c.admin_url ++ ("/admin/identities?" ++ q'))) w

  module _ (reads : String → Bool) (kratos : AnswersByParameters reads) (e rest : String)
      (one : has_ampersand e ≡ false) (plain_e : is_plain e ≡ true)
      (plain_rest : is_plain rest ≡ true)
      (unread : read_parts reads (split ampersand rest) ≡ []) where
    query_cut : email_query (e ++ ("&" ++ rest)) ≡ email_query e ++ ("&" ++ rest)
    query_cut = sym (append_assoc "credentials_identifier=" e ("&" ++ rest))

    by_email-cut :
        (w : W) → get_identity_by_email c (e ++ ("&" ++ rest)) w ≡ get_identity_by_email c e w
    unfolding get_identity_by_email has_ampersand is_plain
    by_email-cut w =
        let plain_query = is_plain-append "credentials_identifier=" e refl plain_e in
        let plain_whole =
          is_plain-append (email_query e) ("&" ++ rest) plain_query
            (is_plain-append "&" rest refl plain_rest) in
        let cut =
          read_parts-cut reads (email_query e) rest
            (has_ampersand-append "credentials_identifier=" e refl one) unread in
        rw query_cut (
          rw (
            kratos.answered_alike (email_query e ++ ("&" ++ rest)) (email_query e) plain_whole
              plain_query cut w))

    -- The email of a login is cut at its first ampersand, since the client does not escape it: with
    -- Kratos' client behind the service, `GoogleLogin` with an email that is longer by `&` and a text
    -- in which Kratos finds no parameter does the same as with the email before it, and returns the
    -- tokens of that user. Both texts are of letters, digits and the characters `@._-=&`.
    pub google_login-cut :
        (s : AuthService W)
        → s.kratos_client ≡ some client
        → (device_id : String) (remember_me : Bool) (user_agent ip : Option String) (w : W)
        → google_login s (e ++ ("&" ++ rest)) device_id remember_me user_agent ip w
          ≡ google_login s e device_id remember_me user_agent ip w
    unfolding client
    google_login-cut s wired device_id remember_me user_agent ip w =
        google_login-same s client wired (e ++ ("&" ++ rest)) e device_id remember_me user_agent ip
          w (by_email-cut w)
