-- ===== src/Analysis/Batch.antt =====
-- The goroutines of `AnalyzeDomains` in internal/domainAnalysis/analysis.go, as steps in any order: the
-- workers with their semaphore and wait group, the one that closes the channel, and the aggregator. A
-- worker's call of `AnalyzeDomain`, with the analysis that the returned pointer holds, its log call and
-- the sending of its result are one step.
pub mod Sound
pub mod Progress
pub mod Log
mod Examples
use Prim.Native.String.{String}
use perion_assignment.Common.{
  ℕ, zero, suc, ◌+◌, ◌<◌, Bool, true, false, List, [], ◌∷◌, ◌++◌, length, ◌≡◌,
}
use perion_assignment.Text.{Text, codes, decimal}
use perion_assignment.Dict.{Dict}
use perion_assignment.Models.{DomainAnalysis, DomainResult, BatchAnalysisResponse}
use perion_assignment.Models.Errors.{error_text, Result, ok, err}
use perion_assignment.Models.Log.{LogCall, medium, log_info, log_success, log_error}
use perion_assignment.Analysis.{aggregate_results}

-- The result that a worker sends.
unfoldable pub domain_result : (now : ℕ) → Text → Result DomainAnalysis → DomainResult
domain_result now dom (err e) = record {
  domain = dom;
  total_advertisers = 0;
  advertisers = [];
  cached = false;
  error = error_text e;
  success = false;
  timestamp = now;
}
domain_result now dom (ok analysis) = record {
  domain = dom;
  total_advertisers = analysis.total_advertisers;
  advertisers = analysis.advertisers;
  cached = analysis.cached;
  error = [];
  success = true;
  timestamp = analysis.timestamp;
}

-- The log call of a worker whose analysis fails.
unfoldable pub worker_log : Text → Result DomainAnalysis → List LogCall
worker_log dom (ok analysis) = []
worker_log dom (err e) =
    log_error (codes "batch_analysis") dom (codes "Failed to analyze domain in batch") e medium ∷ []

-- `AnalyzeDomains` while it runs: the domains whose workers wait for a place and run; how many workers
-- have sent their result and still hold their place, and how many have given it back and are not yet
-- done; the places of the semaphore that are taken, the counter of the wait group and the room of the
-- channel; what was sent and how much of it the aggregator has received; whether the channel is closed
-- and the answer is there; and the log calls of the workers, those of `AnalyzeDomain` being in the world.
pub record Batch (W : Type 0) : Type 0 where
  pub waiting : List Text
  pub running : List Text
  pub releasing : ℕ
  pub ending : ℕ
  pub taken : ℕ
  pub counter : ℕ
  pub capacity : ℕ
  pub sent : List DomainResult
  pub received : ℕ
  pub is_closed : Bool
  pub answered : Bool
  pub log : List LogCall
  pub world : W

module _ {W : Type 0} where
  -- The workers once they have been started.
  abbrev pub started : List Text → W → Batch W
  started domains world = record {
    waiting = domains;
    running = [];
    releasing = 0;
    ending = 0;
    taken = 0;
    counter = length domains;
    capacity = length domains;
    sent = [];
    received = 0;
    is_closed = false;
    answered = false;
    log = [];
    world = world;
  }

  -- The aggregator has sent its answer.
  abbrev pub IsComplete : Batch W → Type 0
  IsComplete s = s.answered ≡ true

  module _ (analyze : Text → W → W × Result DomainAnalysis) (max_concurrent : ℕ) where
    -- A worker takes a place, makes its call and sends the result, gives the place back, and is done;
    -- the channel is closed; the aggregator receives a result, and answers behind the last one.
    pub data Step : Batch W → Batch W → Type 0 where
      acquire :
          {s : Batch W} (before after : List Text) (dom : Text)
          → s.waiting ≡ before ++ dom ∷ after
          → s.taken < max_concurrent
          → Step s (record s {
            waiting = before ++ after;
            running = dom ∷ s.running;
            taken = suc s.taken;
          })
      finish :
          {s : Batch W} (now : ℕ) (before after : List Text) (dom : Text)
          → s.running ≡ before ++ dom ∷ after
          → s.is_closed ≡ false
          → length s.sent < s.received + s.capacity
          → Step s (record s {
            running = before ++ after;
            releasing = suc s.releasing;
            sent = s.sent ++ domain_result now dom (analyze dom s.world).1 ∷ [];
            log = s.log ++ worker_log dom (analyze dom s.world).1;
            world = (analyze dom s.world).0;
          })
      release :
          {s : Batch W} (rest left : ℕ)
          → s.releasing ≡ suc rest
          → s.taken ≡ suc left
          → Step s (record s { releasing = rest; ending = suc s.ending; taken = left })
      is_done :
          {s : Batch W} (rest left : ℕ)
          → s.ending ≡ suc rest
          → s.counter ≡ suc left
          → Step s (record s { ending = rest; counter = left })
      closes :
          {s : Batch W}
          → s.counter ≡ 0
          → s.is_closed ≡ false
          → Step s (record s { is_closed = true })
      receives :
          {s : Batch W}
          → s.received < length s.sent
          → Step s (record s { received = suc s.received })
      answers :
          {s : Batch W}
          → s.is_closed ≡ true
          → s.received ≡ length s.sent
          → s.answered ≡ false
          → Step s (record s { answered = true })

    -- A number of steps.
    pub data Run : ℕ → Batch W → Batch W → Type 0 where
      rests : {s : Batch W} → Run 0 s s
      steps : {n : ℕ} {s t u : Batch W} → Step s t → Run n t u → Run (suc n) s u

-- The answer to a batch whose results have been sent; an empty one is answered at once.
unfoldable pub batch_answer :
    (order : Dict ℕ → List (Text × ℕ))
    → (now : ℕ) → List Text
    → List DomainResult
    → BatchAnalysisResponse
batch_answer order now [] sent = record {
  results = [];
  summary = record { total = 0; succeeded = 0; failed = 0 };
  advertisers = [];
  total_advertisers = 0;
  timestamp = now;
}
batch_answer order now (dom ∷ domains) sent =
    aggregate_results order now (suc (length domains)) sent

-- The log calls that `AnalyzeDomains` makes itself, around those of its workers; an empty batch ends
-- behind the first one.
abbrev pub log_behind : List Text → List LogCall → List LogCall
log_behind [] workers = []
log_behind (dom ∷ domains) workers =
    workers ++ log_success (codes "batch_analysis") [] (codes "Completed batch analysis") ∷ []

unfoldable pub own_calls : List Text → List LogCall → List LogCall
own_calls domains workers =
    log_info (codes "batch_analysis")
      (codes "Starting batch analysis of " ++ decimal (length domains) ++ codes " domains")
    ∷ log_behind domains workers
