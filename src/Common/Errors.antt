-- ===== src/Common/Errors.antt =====
-- include/common/ErrorCode.h and include/exception/BusinessException.h; the exceptions that the
-- program and the libraries below it throw.
use project_collection.Base.{ℕ, []}
use project_collection.Base.Text.{Text, codes}

pub record ErrorCode : Type 0 where
  pub code : ℕ
  pub message : Text
  pub description : Text

-- The static functions of `ErrorCode`, `SUCCESS()` first.
pub data ErrorKind : Type 0 where
  success params_error null_error no_login no_auth system_error db_error cache_error : ErrorKind
  inter_server_error global_error : ErrorKind

unfoldable pub error_code : ErrorKind → ErrorCode
error_code success = record { code = 0; message = codes "ok"; description = [] }
error_code params_error = record { code = 40000; message = codes "请求参数错误"; description = [] }
error_code null_error = record { code = 40001; message = codes "请求数据为空"; description = [] }
error_code no_login = record { code = 40100; message = codes "未登录"; description = [] }
error_code no_auth = record { code = 40101; message = codes "无权限"; description = [] }
error_code system_error = record { code = 50000; message = codes "系统内部异常"; description = [] }
error_code db_error = record { code = 50001; message = codes "数据库异常"; description = [] }
error_code cache_error = record { code = 50100; message = codes "缓存异常"; description = [] }
error_code inter_server_error = record { code = 60100; message = codes "服务内部错误"; description = [] }
error_code global_error = record { code = 60200; message = codes "全局错误"; description = [] }

pub record BusinessException : Type 0 where
  pub code : ℕ
  pub message : Text
  pub description : Text

-- `BusinessException(ErrorCode)`
unfoldable pub business_of : ErrorKind → BusinessException
unfolding error_code
business_of k = record {
  code = (error_code k).code;
  message = (error_code k).message;
  description = (error_code k).description;
}

-- `BusinessException(ErrorCode, description)`
unfoldable pub business_with : ErrorKind → Text → BusinessException
unfolding error_code
business_with k d = record {
  code = (error_code k).code;
  message = (error_code k).message;
  description = d;
}

-- What can be in flight: a `BusinessException`, the exceptions of Poco::Redis, of drogon's ORM and
-- of Poco::Data, and any other `std::exception` (a failed cast, `stol`). An exception of Poco::Data has
-- the name of its class and its message; one of Poco::Redis has a message, the others their text.
pub data Exception : Type 0 where
  business : BusinessException → Exception
  redis_exception drogon_db_exception std_exception : Text → Exception
  data_exception : Text → Text → Exception

-- `what()`: for a `BusinessException` it is the message, for the exceptions of Poco the name of the
-- class.
unfoldable pub what : Exception → Text
what (business e) = e.message
what (redis_exception m) = codes "Redis Exception"
what (drogon_db_exception m) = m
what (data_exception name m) = name
what (std_exception m) = m
