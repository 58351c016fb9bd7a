-- ===== src/Models.antt =====
-- internal/models/models.go: the records that the components exchange. A time is a number of
-- nanoseconds; a Go `int` that only counts is a natural number.
pub mod Errors
pub mod Heap
pub mod Log
use perion_assignment.Common.{ℕ, Bool, List}
use perion_assignment.Text.{Text}

pub record AdvertiserInfo : Type 0 where
  pub domain : Text
  pub count : ℕ

pub record DomainAnalysis : Type 0 where
  pub domain : Text
  pub total_advertisers : ℕ
  pub advertisers : List AdvertiserInfo
  pub cached : Bool
  pub timestamp : ℕ

pub record BatchAnalysisRequest : Type 0 where
  pub domains : List Text

pub record DomainResult : Type 0 where
  pub domain : Text
  pub total_advertisers : ℕ
  pub advertisers : List AdvertiserInfo
  pub cached : Bool
  pub error : Text
  pub success : Bool
  pub timestamp : ℕ

pub record BatchSummary : Type 0 where
  pub total : ℕ
  pub succeeded : ℕ
  pub failed : ℕ

pub record BatchAnalysisResponse : Type 0 where
  pub results : List DomainResult
  pub summary : BatchSummary
  pub advertisers : List AdvertiserInfo
  pub total_advertisers : ℕ
  pub timestamp : ℕ

pub record AdsTxtEntry : Type 0 where
  pub exchange_domain : Text
  pub publisher_id : Text
  pub account_type : Text
  pub certification_auth : Text
