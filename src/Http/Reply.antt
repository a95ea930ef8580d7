-- ===== src/Http/Reply.antt =====
-- http::server::reply (splice/http/reply.hpp and .hxx). `boost::lexical_cast` of a size is a
-- parameter. The strings are the source's; a status is one of the sixteen that it names, so the
-- `default` of its two switches has no clause here.

pub mod Wire
use splitsen.Base.{ℕ, List, [], ◌∷◌, ◌++◌, Bytes, codes, length}
use splitsen.Http.Request.{Header}

pub data StatusType : Type 0 where
  ok created accepted no_content multiple_choices : StatusType
  moved_permanently moved_temporarily not_modified bad_request unauthorized forbidden : StatusType
  not_found internal_server_error not_implemented bad_gateway service_unavailable : StatusType

pub record Reply : Type 0 where
  pub status : StatusType
  pub headers : List Header
  pub content : Bytes

-- The numbers of the enumeration.
unfoldable pub status_number : StatusType → ℕ
status_number ok = 200
status_number created = 201
status_number accepted = 202
status_number no_content = 204
status_number multiple_choices = 300
status_number moved_permanently = 301
status_number moved_temporarily = 302
status_number not_modified = 304
status_number bad_request = 400
status_number unauthorized = 401
status_number forbidden = 403
status_number not_found = 404
status_number internal_server_error = 500
status_number not_implemented = 501
status_number bad_gateway = 502
status_number service_unavailable = 503

-- `status_strings::to_buffer`
unfoldable pub status_line : StatusType → Bytes
status_line ok = codes "HTTP/1.0 200 OK\r\n"
status_line created = codes "HTTP/1.0 201 Created\r\n"
status_line accepted = codes "HTTP/1.0 202 Accepted\r\n"
status_line no_content = codes "HTTP/1.0 204 No Content\r\n"
status_line multiple_choices = codes "HTTP/1.0 300 Multiple Choices\r\n"
status_line moved_permanently = codes "HTTP/1.0 301 Moved Permanently\r\n"
status_line moved_temporarily = codes "HTTP/1.0 302 Moved Temporarily\r\n"
status_line not_modified = codes "HTTP/1.0 304 Not Modified\r\n"
status_line bad_request = codes "HTTP/1.0 400 Bad Request\r\n"
status_line unauthorized = codes "HTTP/1.0 401 Unauthorized\r\n"
status_line forbidden = codes "HTTP/1.0 403 Forbidden\r\n"
status_line not_found = codes "HTTP/1.0 404 Not Found\r\n"
status_line internal_server_error = codes "HTTP/1.0 500 Internal Server Error\r\n"
status_line not_implemented = codes "HTTP/1.0 501 Not Implemented\r\n"
status_line bad_gateway = codes "HTTP/1.0 502 Bad Gateway\r\n"
status_line service_unavailable = codes "HTTP/1.0 503 Service Unavailable\r\n"

abbrev pub name_value_separator : Bytes
name_value_separator = codes ": "

abbrev pub crlf : Bytes
crlf = codes "\r\n"

-- The four buffers of each header.
unfoldable pub header_buffers : List Header → List Bytes
header_buffers [] = []
header_buffers (h ∷ hs) = h.name ∷ name_value_separator ∷ h.value ∷ crlf ∷ header_buffers hs

-- `reply::to_buffers`
unfoldable pub to_buffers : Reply → List Bytes
unfolding status_line header_buffers
to_buffers r = status_line r.status ∷ (header_buffers r.headers ++ crlf ∷ r.content ∷ [])

-- `stock_replies::to_string`
unfoldable pub stock_content : StatusType → Bytes
stock_content ok = []
stock_content created =
    codes "<html>"
    ++ codes "<head><title>Created</title></head>"
    ++ codes "<body><h1>201 Created</h1></body>"
    ++ codes "</html>"
stock_content accepted =
    codes "<html>"
    ++ codes "<head><title>Accepted</title></head>"
    ++ codes "<body><h1>202 Accepted</h1></body>"
    ++ codes "</html>"
stock_content no_content =
    codes "<html>"
    ++ codes "<head><title>No Content</title></head>"
    ++ codes "<body><h1>204 Content</h1></body>"
    ++ codes "</html>"
stock_content multiple_choices =
    codes "<html>"
    ++ codes "<head><title>Multiple Choices</title></head>"
    ++ codes "<body><h1>300 Multiple Choices</h1></body>"
    ++ codes "</html>"
stock_content moved_permanently =
    codes "<html>"
    ++ codes "<head><title>Moved Permanently</title></head>"
    ++ codes "<body><h1>301 Moved Permanently</h1></body>"
    ++ codes "</html>"
stock_content moved_temporarily =
    codes "<html>"
    ++ codes "<head><title>Moved Temporarily</title></head>"
    ++ codes "<body><h1>302 Moved Temporarily</h1></body>"
    ++ codes "</html>"
stock_content not_modified =
    codes "<html>"
    ++ codes "<head><title>Not Modified</title></head>"
    ++ codes "<body><h1>304 Not Modified</h1></body>"
    ++ codes "</html>"
stock_content bad_request =
    codes "<html>"
    ++ codes "<head><title>Bad Request</title></head>"
    ++ codes "<body><h1>400 Bad Request</h1></body>"
    ++ codes "</html>"
stock_content unauthorized =
    codes "<html>"
    ++ codes "<head><title>Unauthorized</title></head>"
    ++ codes "<body><h1>401 Unauthorized</h1></body>"
    ++ codes "</html>"
stock_content forbidden =
    codes "<html>"
    ++ codes "<head><title>Forbidden</title></head>"
    ++ codes "<body><h1>403 Forbidden</h1></body>"
    ++ codes "</html>"
stock_content not_found =
    codes "<html>"
    ++ codes "<head><title>Not Found</title></head>"
    ++ codes "<body><h1>404 Not Found</h1></body>"
    ++ codes "</html>"
stock_content internal_server_error =
    codes "<html>"
    ++ codes "<head><title>Internal Server Error</title></head>"
    ++ codes "<body><h1>500 Internal Server Error</h1></body>"
    ++ codes "</html>"
stock_content not_implemented =
    codes "<html>"
    ++ codes "<head><title>Not Implemented</title></head>"
    ++ codes "<body><h1>501 Not Implemented</h1></body>"
    ++ codes "</html>"
stock_content bad_gateway =
    codes "<html>"
    ++ codes "<head><title>Bad Gateway</title></head>"
    ++ codes "<body><h1>502 Bad Gateway</h1></body>"
    ++ codes "</html>"
stock_content service_unavailable =
    codes "<html>"
    ++ codes "<head><title>Service Unavailable</title></head>"
    ++ codes "<body><h1>503 Service Unavailable</h1></body>"
    ++ codes "</html>"

-- The two headers of every reply that the program builds.
abbrev pub content_length : Bytes
content_length = codes "Content-Length"

abbrev pub content_type : Bytes
content_type = codes "Content-Type"

module _ (lexical_cast : ℕ → Bytes) where
  -- `headers.resize(2)` and the four assignments that follow it, of both fields of both headers.
  abbrev pub two_headers : Bytes → Bytes → List Header
  two_headers content mime_type =
      record { name = content_length; value = lexical_cast (length content) }
      ∷ record { name = content_type; value = mime_type }
      ∷ []

  -- `reply::stock_reply`
  unfoldable pub stock_reply : StatusType → Reply
  unfolding stock_content
  stock_reply status = record {
    status = status;
    headers = two_headers (stock_content status) (codes "text/html");
    content = stock_content status;
  }
