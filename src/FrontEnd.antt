-- ===== src/FrontEnd.antt =====
-- The templates that a C++ application uses in place of the C interface for services
-- (include/hako_asset_service_client.hpp and include/hako_asset_service_server.hpp), on the tables of
-- the module Polling. The packet converters, hako::pdu::PduConvertor of hakoniwa-pdu-registry, are a parameter.
pub mod ServiceClient
pub mod ServiceServer
pub mod Steps
pub mod Silent
pub mod Codes
pub mod Bodies
use hakoniwa_core_pro.Base.{ℤ}

-- The packet types in C++, of which the templates use the body.
pub record CppPacket (H B : Type 0) : Type 0 where
  pub header : H
  pub body : B

-- PduConvertor: the `int` result of each conversion, and what it leaves in the packet, or in the buffer.
pub record PduConvertor (P H B : Type 0) : Type 0 where
  pub pdu2cpp : P → CppPacket H B → ℤ × CppPacket H B
  pub cpp2pdu : CppPacket H B → P → ℤ × P
