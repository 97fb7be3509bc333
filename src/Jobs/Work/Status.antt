-- ===== src/Jobs/Work/Status.antt =====
-- operator/runer/src/api/msg_handler.rs: what the workers' servers say of their status.
use aos_operator.Shared.{
  ℕ, ◌≡◌, refl, Bool, true, Option, none, some, ◌++◌, Outcome, ok, err, ◌>>=◌, ok_or, ok_or-eq-ok,
  if◌then◌else◌, Bool-cases, Option-cases, inl, inr,
}
use aos_operator.Shared.Text.{Text, codes}
use aos_operator.Jobs.{OperatorError, custom_error, op_setup_register, op_json_error}

-- What is used of `serde_json`: parsing, a field of an object, and values as a text and as a `u32`.
pub record Json (Value : Type 0) : Type 0 where
  pub from_str : Text → Option Value
  pub get : Text → Value → Option Value
  pub as_string : Value → Option Text
  pub as_u32 : Value → Option ℕ

-- A response of `reqwest`, with its status as text, and its body, unless reading it fails.
pub record Response : Type 0 where
  pub success : Bool
  pub status : Text
  pub text : Option Text

module _ {Value : Type 0} (json : Json Value) where
  -- The body of a response that succeeded.
  body_status : {S : Type 0} → Text → (Value → Option S) → Option Text → Outcome OperatorError S
  body_status field read text = do
    body ← ok_or text op_setup_register
    parsed ← ok_or (json.from_str body) op_json_error
    msg ← ok_or (json.get field parsed) (custom_error (codes "parse msg error"))
    ok_or (read msg) op_json_error

  -- What both requests have in common: the server's name, the field, and how it is read.
  response_status :
      {S : Type 0} → Text → Text → (Value → Option S) → Response → Outcome OperatorError S
  unfolding body_status
  response_status server field read response =
      if response.success
      then body_status field read response.text
      else err
          (custom_error (server ++ (codes " server responded with status: " ++ response.status)))

  -- `get_opml_worker_status`, given the response, unless the request failed
  unfoldable pub get_opml_worker_status : Option Response → Outcome OperatorError Text
  unfolding response_status
  get_opml_worker_status sent = do
    response ← ok_or sent op_setup_register
    response_status (codes "Opml") (codes "msg") json.as_string response

  -- `get_tee_worker_status`
  unfoldable pub get_tee_worker_status : Option Response → Outcome OperatorError ℕ
  unfolding response_status
  get_tee_worker_status sent = do
    response ← ok_or sent op_setup_register
    response_status (codes "Tee") (codes "remain_task") json.as_u32 response

  -- The status that a body gives is that of its field.
  body_status-ok :
      {S : Type 0} (field : Text) (read : Value → Option S) (text : Option Text) (s : S)
      → body_status field read text ≡ ok s
      → (body : Text) × (text ≡ some body)
        × ((parsed : Value) × (json.from_str body ≡ some parsed)
            × ((msg : Value) × (json.get field parsed ≡ some msg) × (read msg ≡ some s)))
  unfolding body_status
  body_status-ok field read none s h = absurd cc
  body_status-ok field read (some body) s h = elim (Option-cases (json.from_str body)) [
    | inl bad ↦ let h' = rw bad at h in absurd cc
    | inr (parsed, p) ↦
        let h' = rw p at h in
        elim (Option-cases (json.get field parsed)) [
          | inl bad ↦ let g = rw bad at h' in absurd cc
          | inr (msg, m) ↦
              let g = rw m at h' in
              (body, refl, (parsed, p, (msg, m, ok_or-eq-ok (read msg) op_json_error g)))
        ]
  ]

  -- A status of the OPML worker is the field `msg` of a response that succeeded.
  pub get_opml_worker_status-ok :
      (sent : Option Response) (s : Text)
      → get_opml_worker_status sent ≡ ok s
      → (response : Response) × (sent ≡ some response)
        × (response.success ≡ true)
        × ((body : Text) × (response.text ≡ some body)
            × ((parsed : Value) × (json.from_str body ≡ some parsed)
                × ((msg : Value) × (json.get (codes "msg") parsed ≡ some msg)
                    × (json.as_string msg ≡ some s))))
  unfolding get_opml_worker_status response_status
  get_opml_worker_status-ok none s h = absurd cc
  get_opml_worker_status-ok (some response) s h = elim (Bool-cases response.success) [
    | inr failed ↦ let h' = rw failed at h in absurd cc
    | inl done ↦
        let h' = rw done at h in
        (response, refl, done, body_status-ok (codes "msg") json.as_string response.text s h')
  ]
