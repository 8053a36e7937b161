-- ===== src/Canonical/Messages.antt =====
-- The three messages that wallets sign, and that no two of them have one text.
-- (auth.controller.ts authVerify, access-control.controller.ts keyClaim, articles.controller.ts
-- preparePublish, all in apps/api/src/controllers.)
use mathlib.Core.List.{append_assoc}
use aurora_scholar.Prelude.{
  ◌≡◌, sym, ap, ◌∙◌, Bool, true, false, ◌++◌, ◌≢◌, String, arith, drop, ℕ, [], ◌∷◌, refl,
}
use aurora_scholar.Text.{Text, units}
use aurora_scholar.Canonical.{
  Value, str, bool, obj, Fields, end, field, quote, stable_stringify, le_text, insert_entry,
  sort_entries, render_object, escape, escape_all,
}
use aurora_scholar.Canonical.Quote.{quote_prefix}

abbrev pub text_field : String → Text → Fields → Fields
text_field k t fs = field (units k) (str t) fs

unfoldable pub auth_message : Text → Text → Value
auth_message wallet nonce = obj (
    text_field "domain" (units "aurora-scholar") (
      text_field "action" (units "auth")
        (text_field "wallet" wallet (text_field "nonce" nonce end))))

unfoldable pub access_key_message : Text → Text → Text → Value
access_key_message wallet article_id nonce = obj (
    text_field "domain" (units "aurora-scholar") (
      text_field "action" (units "access-key") (
        text_field "wallet" wallet
          (text_field "articleId" article_id (text_field "nonce" nonce end)))))

-- The payload that an author signs before publishing.
pub record Payload : Type 0 where
  pub author : Text
  pub title : Text
  pub content_hash : Text
  pub intuition_hash : Text
  pub ai_scope : Text
  pub is_public : Bool
  pub created_at : Text

unfoldable pub publish_message : Payload → Value
publish_message p = obj (
    text_field "author" p.author (
      text_field "title" p.title (
        text_field "contentHash" p.content_hash (
          text_field "intuitionHash" p.intuition_hash (
            text_field "aiScope" p.ai_scope (
              field (units "isPublic") (bool p.is_public)
                (text_field "createdAt" p.created_at end)))))))

first : Text → ℕ
first [] = 0
first (u ∷ t) = u

auth_head : Text
auth_head = units "{\"action\":\"auth\",\"domain\":\"aurora-scholar\",\"nonce\":"

wallet_key : Text
wallet_key = units ",\"wallet\":"

access_head : Text
access_head = units "{\"action\":\"access-key\",\"articleId\":"

access_middle : Text
access_middle = units ",\"domain\":\"aurora-scholar\",\"nonce\":"

auth_text : Text → Text → Text
unfolding auth_head wallet_key
auth_text w n = auth_head ++ (quote n ++ (wallet_key ++ (quote w ++ units "}")))

access_text : Text → Text → Text → Text
unfolding access_head access_middle wallet_key
access_text w a n =
    access_head
    ++ (quote a ++ (access_middle ++ (quote n ++ (wallet_key ++ (quote w ++ units "}")))))

-- What a text of the payload's members is made of.
publish_text : Payload → Text
publish_text p =
    units "{\"aiScope\":"
    ++ (quote p.ai_scope
        ++ (units ",\"author\":"
            ++ (quote p.author
                ++ (units ",\"contentHash\":"
                    ++ (quote p.content_hash
                        ++ (units ",\"createdAt\":"
                            ++ (quote p.created_at
                                ++ (units ",\"intuitionHash\":"
                                    ++ (quote p.intuition_hash
                                        ++ (units ",\"isPublic\":"
                                            ++ (stable_stringify (bool p.is_public)
                                                ++ (units ",\"title\":"
                                                    ++ (quote p.title ++ units "}")))))))))))))

rendering : Unit {0}
unfolding stable_stringify render_object sort_entries insert_entry le_text quote escape_all escape
rendering = tt

auth_text_lem : (w n : Text) → stable_stringify (auth_message w n) ≡ auth_text w n
unfolding rendering auth_message auth_text
auth_text_lem w n = simp append_assoc

access_text_lem : (w a n : Text) → stable_stringify (access_key_message w a n) ≡ access_text w a n
unfolding rendering access_key_message access_text
access_text_lem w a n = simp append_assoc

publish_text_lem : (p : Payload) → stable_stringify (publish_message p) ≡ publish_text p
unfolding rendering publish_message publish_text
publish_text_lem p = simp append_assoc

-- Equal canonical texts of two sign-in messages carry the same wallet and the same nonce.
pub auth_message_injective :
    (w n w' n' : Text)
    → stable_stringify (auth_message w n) ≡ stable_stringify (auth_message w' n')
    → (w ≡ w') × (n ≡ n')
unfolding auth_text
auth_message_injective w n w' n' e =
    let e' : auth_text w n ≡ auth_text w' n' = sym (auth_text_lem w n) ∙ e ∙ auth_text_lem w' n' in
    let (same_n, r) = quote_prefix n n' _ _ (ap (drop 51) e') in
    let (same_w, _) = quote_prefix w w' _ _ (ap (drop 10) r) in (same_w, same_n)

-- Equal canonical texts of two key requests carry the same wallet, article and nonce.
pub access_key_message_injective :
    (w a n w' a' n' : Text)
    → stable_stringify (access_key_message w a n) ≡ stable_stringify (access_key_message w' a' n')
    → (w ≡ w') × (a ≡ a') × (n ≡ n')
unfolding access_text
access_key_message_injective w a n w' a' n' e =
    let e' : access_text w a n ≡ access_text w' a' n' =
      sym (access_text_lem w a n) ∙ e ∙ access_text_lem w' a' n' in
    let (same_a, r) = quote_prefix a a' _ _ (ap (drop 35) e') in
    let (same_n, r') = quote_prefix n n' _ _ (ap (drop 35) r) in
    let (same_w, _) = quote_prefix w w' _ _ (ap (drop 10) r') in (same_w, same_a, same_n)

bool_prefix :
    (b c : Bool) (r q : Text)
    → stable_stringify (bool b) ++ r ≡ stable_stringify (bool c) ++ q
    → (b ≡ c) × (r ≡ q)
unfolding stable_stringify first
bool_prefix true true r q e = (refl, ap (drop 4) e)
bool_prefix false false r q e = (refl, ap (drop 5) e)
bool_prefix true false r q e = absurd (omega (arith, ap first e))
bool_prefix false true r q e = absurd (omega (arith, ap first e))

-- Two payloads with one canonical text are the same payload: a signature covers every field.
pub publish_message_injective :
    (p q : Payload)
    → stable_stringify (publish_message p) ≡ stable_stringify (publish_message q)
    → p ≡ q
unfolding publish_text
publish_message_injective p q e =
    let e' : publish_text p ≡ publish_text q = sym (publish_text_lem p) ∙ e ∙ publish_text_lem q in
    let (scope, r1) = quote_prefix p.ai_scope q.ai_scope _ _ (ap (drop 11) e') in
    let (author, r2) = quote_prefix p.author q.author _ _ (ap (drop 10) r1) in
    let (content, r3) = quote_prefix p.content_hash q.content_hash _ _ (ap (drop 15) r2) in
    let (created, r4) = quote_prefix p.created_at q.created_at _ _ (ap (drop 13) r3) in
    let (intuition, r5) = quote_prefix p.intuition_hash q.intuition_hash _ _ (ap (drop 17) r4) in
    let (visible, r6) = bool_prefix p.is_public q.is_public _ _ (ap (drop 12) r5) in
    let (title, _) = quote_prefix p.title q.title _ _ (ap (drop 9) r6) in cc

-- What the three texts differ in: their fourth unit, and the thirteenth.
fourth : Text → ℕ
unfolding first
fourth t = first (drop 3 t)

thirteenth : Text → ℕ
unfolding first
thirteenth t = first (drop 12 t)

-- A text signed for one purpose is never the text of another: a sign-in signature releases no
-- article key and publishes nothing, and so for the other pairs.
pub messages_separate :
    (w n w' a n' : Text) (p : Payload)
    → (stable_stringify (auth_message w n) ≢ stable_stringify (access_key_message w' a n'))
      × (stable_stringify (auth_message w n) ≢ stable_stringify (publish_message p))
      × (stable_stringify (access_key_message w' a n') ≢ stable_stringify (publish_message p))
unfolding auth_text access_text publish_text fourth thirteenth
messages_separate w n w' a n' p =
    rw (auth_text_lem, access_text_lem, publish_text_lem)
      (
        (λ e. omega (arith, ap thirteenth e)),
        (λ e. omega (arith, ap fourth e)),
        (λ e. omega (arith, ap fourth e)),
      )
