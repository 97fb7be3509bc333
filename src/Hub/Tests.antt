-- ===== src/Hub/Tests.antt =====
-- The hub's theorems at concrete requests.
use aos_operator.Shared.{ℕ, ◌≡◌, refl, ap, true, false, some, none, [], ok}
use aos_operator.Shared.Text.{Text, codes, text_eq}
use aos_operator.Shared.TextMap.{get, insert, remove}
use aos_operator.Hub.{Operator, OperatorReq, AnswerReq, HeartBeatReq, OpmlRequest, OpmlAnswer}
use aos_operator.Hub.Channels.{Channel, Channels, sent, register, callback, empty, drop_sender}
use aos_operator.Hub.Channels.Routing.{callback-receive}
use aos_operator.Hub.Channels.Ownership.{Reach, start, next, registers, calls_back, receive-own}
use aos_operator.Hub.Handlers.{new, failure, tee_question, tee_callback, tee_wait}
use aos_operator.Hub.Handlers.Waiting.{tee_question-answer}

abbrev id_of : AnswerReq → Text
id_of a = a.request_id

abbrev answer : Text → AnswerReq
answer id = record {
  request_id = id;
  node_id = codes "n";
  model = codes "m";
  prompt = codes "p";
  answer = codes "42";
  attestation = [];
  attest_signature = [];
  elapsed = 3;
}

abbrev asks : Text → OperatorReq ℕ
asks id = record {
  request_id = id;
  node_id = codes "n";
  model = codes "m";
  prompt = codes "p";
  prompt_hash = [];
  signature = [];
  params = record { temperature = 1; top_p = 1; max_tokens = 256 };
}

-- Questions r1 and r2 wait on channels 0 and 1.
abbrev waiting : Channels AnswerReq
waiting = register (codes "r2") (register (codes "r1") empty)

abbrev idle : AnswerReq → Channel AnswerReq
idle a = record { request_id = a.request_id; queue = none; has_sender = true; has_receiver = true }

r1_registered : get (codes "r1") waiting.senders ≡ some 0
unfolding register empty get insert remove text_eq
r1_registered = refl

r1_idle : waiting.channel 0 ≡ idle (answer (codes "r1"))
unfolding register empty get insert remove text_eq drop_sender
r1_idle = refl

abbrev answered_r1 : Channels AnswerReq
answered_r1 = (callback (codes "r1") (answer (codes "r1")) waiting).1

answered_r1-Reach : Reach id_of answered_r1
answered_r1-Reach =
    next _ _ (next _ _ (next _ _ start (registers (codes "r1") _)) (registers (codes "r2") _))
      (calls_back (answer (codes "r1")) _)

receive-own_example : codes "r1" ≡ (answered_r1.channel 0).request_id
receive-own_example =
    receive-own id_of answered_r1 0 false (answer (codes "r1")) answered_r1-Reach
      (callback-receive (codes "r1") (answer (codes "r1")) (answer (codes "r1")) waiting 0 1 false
        r1_registered (ap (λ c. c.has_receiver) r1_idle) (ap (λ c. c.queue) r1_idle)).1

tee_question-answer_example :
    let asked = tee_question (failure (codes "refused")) (asks (codes "r3")) new in
    ((tee_callback (answer (codes "r3")) asked.1).0 ≡ sent)
    × ((tee_wait true asked.0 (tee_callback (answer (codes "r3")) asked.1).1).0
        ≡ some (ok (answer (codes "r3"))))
tee_question-answer_example =
    tee_question-answer (failure (codes "refused")) (asks (codes "r3")) (answer (codes "r3")) new
      true refl

abbrev opml_asks : OpmlRequest
opml_asks = record {
  model = codes "m";
  prompt = codes "p";
  req_id = codes "q1";
  callback = codes "c";
}

abbrev opml_told : OpmlAnswer
opml_told = record {
  req_id = codes "q1";
  node_id = codes "n";
  model = codes "m";
  prompt = codes "p";
  answer = codes "42";
  state_root = [];
}

new_empty : get (codes "q1") new.opml_channels.senders ≡ none
unfolding new empty get
new_empty = refl

abbrev worker : Operator
worker = record {
  worker_name = codes "w";
  check_heart_beat = true;
  worker_status = record { model_names = []; speed = 1; queue_length = 0 };
  multimodal = false;
}

abbrev beat : HeartBeatReq
beat = record { worker_name = codes "w"; queue_length = 9 }
