-- ===== src/ApiResponse.antt =====
-- v2/responsew/response.go: the body of every answer, its HTTP status, and pagination.
pub mod HttpStatus
pub mod Pages
mod Tests
use go_utility.Base.{
  ℕ, zero, suc, ◌/◌, String, Bool, true, false, ◌&&◌, Option, none, some, if◌then◌else◌, ltb, leb,
  string_eq, ◌==◌,
}
use go_utility.Base.Int.{ℤ, pos, negsuc, ◌-ℤ◌, ◌*ℤ◌, ltb_ℤ, to_int64}
use go_utility.Status.{GoError, StatusError, as_status}

-- `PaginatedData`; its items are what the caller gave, `none` for the empty list in place of nil.
pub record PaginatedData (D : Type 0) : Type 0 where
  pub items : Option D
  pub total_count : ℤ
  pub page : ℤ
  pub page_size : ℤ
  pub has_next_page : Bool

-- `Data` of a response: nil, a value of the caller's, the empty object in place of nil, or a page.
pub data Body (D : Type 0) : Type 0 where
  null : Body D
  value : D → Body D
  empty_object : Body D
  paginated : PaginatedData D → Body D

-- `Code` of `ErrorDetail` is an `any`: a text of statusw, or the number 500.
pub data DetailCode : Type 0 where
  custom : String → DetailCode
  number : ℕ → DetailCode

pub record ErrorDetail : Type 0 where
  pub code : DetailCode
  pub details : String

pub record BaseResponse (D : Type 0) : Type 0 where
  pub status_code : ℕ
  pub message : String
  pub error : Option ErrorDetail
  pub data_of : Body D

pub record Pagination : Type 0 where
  pub page : ℤ
  pub per_page : ℤ

unfoldable pub get_limit : Pagination → ℤ
get_limit p = p.per_page

unfoldable pub get_offset : Pagination → ℤ
get_offset p = to_int64 (to_int64 (p.page -ℤ pos 1) *ℤ p.per_page)

abbrev pub default_message : String → String
default_message msg = if msg == "" then "Success" else msg

unfoldable pub success : {D : Type 0} → Option D → String → BaseResponse D
success d msg = record {
  status_code = 0;
  message = default_message msg;
  error = none;
  data_of = elim d [ none ↦ empty_object | some v ↦ value v ];
}

unfoldable pub success_paginated : {D : Type 0} → Option D → ℤ → ℤ → ℤ → String → BaseResponse D
success_paginated items total_count page page_size msg = record {
  status_code = 0;
  message = default_message msg;
  error = none;
  data_of = paginated (record {
    items = items;
    total_count = total_count;
    page = page;
    page_size = page_size;
    has_next_page = ltb_ℤ (to_int64 (page *ℤ page_size)) total_count;
  });
}

-- `Pagination.ToResponse`
unfoldable pub page_response : {D : Type 0} → Pagination → Option D → ℤ → String → BaseResponse D
unfolding success_paginated
page_response p items total_count msg = success_paginated items total_count p.page p.per_page msg

-- The loop of `Error` that cuts a code to three digits, with fuel.
unfoldable pub cut : ℕ → ℕ → ℕ
cut zero code = code
cut (suc f) code = let rest = cut f (code / 10) in if ltb 999 code then rest else code

-- The status of a code; each round of the loop makes it smaller, so the code is fuel enough.
unfoldable pub http_status : ℤ → ℕ
unfolding cut
http_status (negsuc n) = 500
http_status (pos n) = let code = cut n n in if leb 100 code && leb code 599 then code else 500

-- `Error`; `text_of` is the text of an error that is none of statusw's.
unfoldable pub error_response : {D : Type 0} → (GoError D → String) → GoError D → ℕ × BaseResponse D
unfolding http_status
error_response text_of err = elim (as_status err) [
  | some e ↦ (
    http_status e.logical_code,
    record {
      status_code = 1;
      message = "Error occurred";
      error = some (record { code = custom e.custom_code; details = e.message });
      data_of = elim (e.data_of) [ none ↦ null | some d ↦ value d ];
    },
  )
  | none ↦ (
    500,
    record {
      status_code = 1;
      message = "Error occurred";
      error = some (record { code = number 500; details = text_of err });
      data_of = null;
    },
  )
]
