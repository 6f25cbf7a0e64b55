-- ===== src/Mqtt.antt =====
-- The MQTT transport: client/src/transport/mqtt/mqtt_client.c publishes through libmosquitto, and
-- server/src/transport/mqtt/mqtt_subscriber.cpp subscribes. The library's calls are parameters: what
-- they return is an argument, and what they are given is recorded.
pub mod Client
pub mod Connect
pub mod Counts
pub mod Subscriber
mod Tests
