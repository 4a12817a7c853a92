-- ===== src/Common/Response.antt =====
-- include/common: BaseResponse.h, ResultUtils.h, Response2json.h, HttpJsonResponseUtils.h and
-- GlobalExceptionHandler.h.
use project_collection.Base.{ℕ, List, []}
use project_collection.Base.Int.{ℤ, pos}
use project_collection.Base.Text.{Text, codes}
use project_collection.Common.Errors.{
  global_error, BusinessException, business_with, Exception, business, what,
}
use project_collection.Common.Calls.{Outcome, ok, raised}
use project_collection.Common.Values.{Json, int, str, obj, end, set_member, array_of}

pub record BaseResponse (T : Type 0) : Type 0 where
  pub code : ℕ
  pub value : T
  pub message : Text
  pub description : Text

module _ {T : Type 0} where
  -- `ResultUtils<T>::susscess`, which leaves the description empty.
  unfoldable pub success_response : T → BaseResponse T
  success_response t = record { code = 0; value = t; message = codes "ok"; description = [] }

  -- `Response2json<T>::rep2json`: the four members, the data by `f`.
  unfoldable pub response_to_json : (T → Json) → BaseResponse T → Json
  unfolding set_member
  response_to_json f rep = obj (
      set_member (codes "description") (str rep.description) (
        set_member (codes "message") (str rep.message) (
          set_member (codes "data") (f rep.value)
            (set_member (codes "code") (int (pos rep.code)) end))))

-- `ResultUtils<long>::error(e)`: NULL is the number 0.
unfoldable pub error_response : BusinessException → BaseResponse ℤ
error_response e = record {
  code = e.code;
  value = pos 0;
  message = e.message;
  description = e.description;
}

-- `HttpJsonResponseUtils<T>::makeSuccessJsonResp`
unfoldable pub make_success_json : {T : Type 0} → (T → Json) → T → Json
unfolding success_response response_to_json
make_success_json f t = response_to_json f (success_response t)

-- `HttpJsonResponseUtils<T>::makeErrorJsonResp`
unfoldable pub make_error_json : BusinessException → Json
unfolding error_response response_to_json
make_error_json e = response_to_json int (error_response e)

-- `Response2json<std::vector<T>>`
unfoldable pub make_list_json : {T : Type 0} → (T → Json) → List T → Json
unfolding make_success_json array_of
make_list_json f = make_success_json (array_of f)

-- `GlobalExceptionHandler::ExceptionHandler`, for what no controller caught.
unfoldable pub global_handler : Exception → Json
unfolding make_error_json business_with what
global_handler e = make_error_json (business_with global_error (what e))

-- A controller's `try`/`catch (BusinessException &)` round a service call, and the handler that
-- main.cpp installs for the rest: the JSON that the client receives.
unfoldable pub respond : {T : Type 0} → (T → Json) → Outcome T → Json
unfolding make_success_json make_error_json global_handler
respond f (ok t) = make_success_json f t
respond f (raised (business e)) = make_error_json e
respond f (raised e) = global_handler e
